-- ===== src/Marketplace/Views.antt =====
-- `getArchiveBySlug`, `recordDownload` and `getFilesBySlug`: what is counted.
pub mod Traffic
pub mod Spaced
use sol_arch.Prelude.{
  ℕ, ◌+◌, ◌*◌, ◌-◌, String, Bool, true, false, not, ◌&&◌, Option, none, some, List, [], ◌∷◌, any,
  ◌==◌, is_text, leb, truthy, if◌then◌else◌,
}
use sol_arch.Table.{find, first}
use sol_arch.Failure.{not_found, internal, plain}
use sol_arch.Db.{Archive, Listing, PublicFile, Db, is_published, is_ready}
use sol_arch.Db.Contents.{files_of}
use sol_arch.Action.{Result, ok, err}

pub data EventType : Type 0 where
  archive_view archive_download : EventType

abbrev pub is_view : EventType → Bool
is_view archive_view = true
is_view archive_download = false

-- A row of `marketplace_events` that a visitor causes.
pub record VisitorEvent : Type 0 where
  pub archive_id : String
  pub event_type : EventType
  pub session : Option String
  pub occurred_at : ℕ

abbrev pub dedupe_window : ℕ
dedupe_window = 15 * 60 * 1000

-- The events that `findFirst` looks for.
unfoldable pub is_recent_view : ℕ → String → String → VisitorEvent → Bool
is_recent_view now archive_id session e =
    (e.archive_id == archive_id)
    && is_view e.event_type
    && is_text e.session session
    && leb (now - dedupe_window) e.occurred_at

-- `shouldRecordView`, by the session if it is not empty
unfoldable pub should_record : ℕ → String → Option String → List VisitorEvent → Bool
unfolding is_recent_view
should_record now archive_id none events = true
should_record now archive_id (some session) events =
    not (any (is_recent_view now archive_id session) events)

abbrev pub view : ℕ → String → Option String → VisitorEvent
view now archive_id session = record {
  archive_id = archive_id;
  event_type = archive_view;
  session = session;
  occurred_at = now;
}

-- A view that a request has decided to count and has not written yet, with the time of the decision.
pub record PendingView : Type 0 where
  pub archive_id : String
  pub session : Option String
  pub decided_at : ℕ

-- `marketplaceEvent.create` of a view, some time after its decision; the newest event stands first.
unfoldable pub create_view : ℕ → PendingView → List VisitorEvent → List VisitorEvent
create_view delay p events = view (p.decided_at + delay) p.archive_id p.session ∷ events

-- `recordDownload`
unfoldable pub record_download : ℕ → String → Option String → List VisitorEvent → List VisitorEvent
record_download now archive_id session events =
    record {
      archive_id = archive_id;
      event_type = archive_download;
      session = truthy session;
      occurred_at = now;
    }
    ∷ events

abbrev pub published_row : Option (String × Listing) → Option String
published_row none = none
published_row (some (id, l)) = if is_published l.marketplace_status then some id else none

-- The listing of a slug, if it is published; its archive's id
unfoldable pub published_slug : String → Db → Option String
published_slug slug db = published_row (first (λ l. l.slug == slug) db.listings)

abbrev pub decided :
    ℕ → Option String → Option String → List VisitorEvent → Result String × Option PendingView
decided now session none events = (err (not_found plain), none)
decided now session (some id) events = (
  ok id,
  if should_record now id session events
      then some (record { archive_id = id; session = session; decided_at = now })
      else none,
)

-- `getArchiveBySlug` up to its write: the archive that it shows, and the view that it is going to count.
unfoldable pub look_up :
    Db → ℕ → String → Option String → List VisitorEvent → Result String × Option PendingView
unfolding published_slug should_record
look_up db now slug session events = decided now (truthy session) (published_slug slug db) events

abbrev pub written : ℕ → Option PendingView → List VisitorEvent → List VisitorEvent
written delay none events = events
written delay (some p) events = create_view delay p events

-- `getArchiveBySlug` where no other request writes between its two halves
unfoldable pub get_archive_by_slug :
    Db → ℕ → ℕ → String → Option String → List VisitorEvent → Result String × List VisitorEvent
unfolding look_up create_view
get_archive_by_slug db now delay slug session events =
    let (answer, pending) = look_up db now slug session events in
    (answer, written delay pending events)

abbrev pub listed_files : Db → Option String → Result (List PublicFile)
listed_files db none = err (not_found plain)
listed_files db (some id) = ok (files_of id db.public_files)

-- `getFilesBySlug`
unfoldable pub get_files_by_slug : Db → String → Result (List PublicFile)
unfolding published_slug
get_files_by_slug db slug = listed_files db (published_slug slug db)

abbrev pub viewable : Option Archive → Result Archive
viewable none = err (not_found plain)
viewable (some a) =
    if is_ready a.technical_status && is_published a.marketplace_status
    then ok a
    else err (not_found plain)

-- `getViewerArchiveMetadata`; the answer is the archive whose columns it copies
unfoldable pub get_viewer_archive_metadata : Db → String → Result Archive
get_viewer_archive_metadata db archive_id = viewable (find archive_id db.archives)
