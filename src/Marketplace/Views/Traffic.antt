-- ===== src/Marketplace/Views/Traffic.antt =====
-- Requests in traffic: the two halves of `getArchiveBySlug`, between which others come.
use sol_arch.Prelude.{
  ℕ, zero, suc, String, ◌≡◌, Bool, false, ◌&&◌, Option, none, some, List, [], ◌∷◌, any, ◌==◌,
  is_text,
}
use sol_arch.Db.{Db}
use sol_arch.Marketplace.Views.{VisitorEvent, PendingView, create_view, look_up, record_download}

-- The events, and the views that running requests are going to write.
pub record Traffic : Type 0 where
  pub events : List VisitorEvent
  pub pending : List PendingView

-- What the requests do, in single steps: a first half of `getArchiveBySlug`, a second half of any of the
-- running ones, and a download.
pub data Step : Type 0 where
  looks : Db → ℕ → String → Option String → Step
  writes : ℕ → ℕ → Step
  downloads : ℕ → String → Option String → Step

abbrev pub behind :
    PendingView → Option (PendingView × List PendingView) → Option (PendingView × List PendingView)
behind p none = none
behind p (some (q, rest)) = some (q, p ∷ rest)

-- One of the pending views, and the others.
unfoldable pub pick : ℕ → List PendingView → Option (PendingView × List PendingView)
pick n [] = none
pick zero (p ∷ ps) = some (p, ps)
pick (suc n) (p ∷ ps) = behind p (pick n ps)

abbrev pub begun : Option PendingView → List PendingView → List PendingView
begun none ps = ps
begun (some p) ps = p ∷ ps

abbrev pub ended : ℕ → Option (PendingView × List PendingView) → Traffic → Traffic
ended delay none t = t
ended delay (some (p, rest)) t = record { events = create_view delay p t.events; pending = rest }

unfoldable pub step : Step → Traffic → Traffic
unfolding pick
step (looks db now slug session) t = record {
  events = t.events;
  pending = begun (look_up db now slug session t.events).1 t.pending;
}
step (writes n delay) t = ended delay (pick n t.pending) t
step (downloads now archive_id session) t = record {
  events = record_download now archive_id session t.events;
  pending = t.pending;
}

-- The last step stands first.
unfoldable pub traffic : List Step → Traffic
unfolding step
traffic [] = record { events = []; pending = [] }
traffic (s ∷ ss) = step s (traffic ss)

abbrev pub same_session : Option String → Option String → Bool
same_session none o = false
same_session (some s) o = is_text o s

-- No view of the same archive and session is pending.
abbrev pub Apart : Option PendingView → List PendingView → Type 0
Apart none ps = Unit
Apart (some p) ps =
    any (λ q. (q.archive_id == p.archive_id) && same_session p.session q.session) ps ≡ false

-- No request looks for a recent view while another one is going to write a view of the same archive and
-- session.
unfoldable pub Exclusive : List Step → Type 0
Exclusive [] = Unit
Exclusive (looks db now slug session ∷ ss) =
    Apart (look_up db now slug session (traffic ss).events).1 (traffic ss).pending × Exclusive ss
Exclusive (writes n delay ∷ ss) = Exclusive ss
Exclusive (downloads now archive_id session ∷ ss) = Exclusive ss
