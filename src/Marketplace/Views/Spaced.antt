-- ===== src/Marketplace/Views/Spaced.antt =====
-- A visitor's session counts once in fifteen minutes.
use sol_arch.Prelude.{
  ℕ, zero, suc, sym, not, ◌+◌, ◌-◌, ◌<◌, String, ◌≡◌, refl, Bool, true, false, ◌&&◌, Option, none,
  some, List, [], ◌∷◌, ◌⊎◌, inl, inr, any, arith, eq_iff, is_text, leb, ◌==◌, Bool-cases,
  if◌then◌else◌, truthy,
}
use mathlib.Core.Path.{subst}
use sol_arch.Marketplace.Views.{
  VisitorEvent, is_view, dedupe_window, is_recent_view, should_record, PendingView, decided,
  create_view, look_up, record_download, published_slug,
}
use sol_arch.Marketplace.Views.Traffic.{
  Traffic, Step, looks, writes, downloads, behind, pick, begun, ended, step, traffic, Apart,
  Exclusive,
}

-- The event is a view of the archive in the session.
abbrev pub is_view_of : String → String → VisitorEvent → Bool
is_view_of archive_id session e =
    (e.archive_id == archive_id) && is_view e.event_type && is_text e.session session

-- Each such event is more than the window before `now`.
abbrev pub Before : ℕ → String → String → List VisitorEvent → Type 0
Before now id session [] = Unit
Before now id session (e ∷ es) =
    ((is_view_of id session e ≡ false) ⊎ (e.occurred_at < now - dedupe_window))
    × Before now id session es

-- Of two views of the archive in the session, the newer one comes more than the window later.
abbrev pub Spaced : String → String → List VisitorEvent → Type 0
Spaced id session [] = Unit
Spaced id session (e ∷ es) =
    ((is_view_of id session e ≡ false) ⊎ Before e.occurred_at id session es) × Spaced id session es

some_inj : {A : Type 0} {a b : A} → some a ≡ some b → a ≡ b
some_inj h = cc h

other_view : (a b : Bool) → (a && b) ≡ false → (a && true && b) ≡ false
other_view a b h = ground (arith, h)

older :
    (shown : Bool) (start at : ℕ) → (shown && leb start at) ≡ false → (shown ≡ false) ⊎ (at < start)
older false start at h = inl refl
older true start at h = inr (ground arith)

head_refused : (b rest : Bool) → (if b then true else rest) ≡ false → b ≡ false
head_refused b rest h = ground arith

tail_refused : (b rest : Bool) → (if b then true else rest) ≡ false → rest ≡ false
tail_refused b rest h = ground arith

not_recent :
    (now : ℕ) (id session : String) (es : List VisitorEvent)
    → any (is_recent_view now id session) es ≡ false
    → Before now id session es
unfolding is_recent_view
not_recent now id session [] h = tt
not_recent now id session (e ∷ es) h = (
  older (is_view_of id session e) (now - dedupe_window) e.occurred_at
      (head_refused (is_recent_view now id session e) _ h),
  not_recent now id session es (tail_refused (is_recent_view now id session e) _ h),
)

named_both : (a b : Bool) → (a && b) ≡ true → (a ≡ true) × (b ≡ true)
named_both a b h = (ground arith, ground arith)

no_name : (a : Bool) → (a && false) ≡ false
no_name a = ground arith

true_of_not : (b : Bool) → not b ≡ true → b ≡ false
true_of_not b h = ground arith

no_download : (a b : Bool) → (a && false && b) ≡ false
no_download a b = ground arith

earlier : (now delay at : ℕ) → at < now - dedupe_window → at < now + delay - dedupe_window
earlier now delay at h = omega arith

later-Before :
    (now delay : ℕ) (id session : String) (es : List VisitorEvent)
    → Before now id session es
    → Before (now + delay) id session es
later-Before now delay id session [] h = tt
later-Before now delay id session (e ∷ es) (inl other, rest) =
    (inl other, later-Before now delay id session es rest)
later-Before now delay id session (e ∷ es) (inr old, rest) =
    (inr (earlier now delay e.occurred_at old), later-Before now delay id session es rest)

module _ (id session : String) where
  abbrev mine : PendingView → Bool
  mine p = (p.archive_id == id) && is_text p.session session

  -- No event stands against the view, and no other view of the session is pending.
  abbrev Fresh : PendingView → List PendingView → List VisitorEvent → Type 0
  Fresh p ps es = (mine p ≡ false) ⊎ (Before p.decided_at id session es × (any mine ps ≡ false))

  abbrev Ready : List PendingView → List VisitorEvent → Type 0
  Ready [] es = Unit
  Ready (p ∷ ps) es = Fresh p ps es × Ready ps es

  -- An event that is no view of the session.
  other-Ready :
      (ps : List PendingView) (e : VisitorEvent) (es : List VisitorEvent)
      → is_view_of id session e ≡ false
      → Ready ps es
      → Ready ps (e ∷ es)
  other-Ready [] e es o h = tt
  other-Ready (p ∷ ps) e es o (inl other, rest) = (inl other, other-Ready ps e es o rest)
  other-Ready (p ∷ ps) e es o (inr (before, alone), rest) =
      (inr ((inl o, before), alone), other-Ready ps e es o rest)

  any_cons :
      (p : PendingView) (ps : List PendingView)
      → any mine (p ∷ ps) ≡ false
      → (mine p ≡ false) × (any mine ps ≡ false)
  any_cons p ps h = (head_refused (mine p) (any mine ps) h, tail_refused (mine p) (any mine ps) h)

  none_mine :
      (p : PendingView) (ps : List PendingView)
      → mine p ≡ false
      → any mine ps ≡ false
      → any mine (p ∷ ps) ≡ false
  none_mine p ps own rest = rw (own) rest

  -- Where none is of the session, any event may come.
  none-Ready : (ps : List PendingView) (es : List VisitorEvent) → any mine ps ≡ false → Ready ps es
  none-Ready [] es h = tt
  none-Ready (p ∷ ps) es h = let (own, rest) = any_cons p ps h in (inl own, none-Ready ps es rest)

  picked_behind :
      (h p : PendingView) (o : Option (PendingView × List PendingView)) (rest : List PendingView)
      → behind h o ≡ some (p, rest)
      → (r : List PendingView) × (o ≡ some (p, r)) × (rest ≡ h ∷ r)
  picked_behind h p none rest e = absurd (cc e)
  picked_behind h p (some (q, r)) rest e = (r, cc e, cc e)

  picked_none :
      (n : ℕ) (ps : List PendingView) (p : PendingView) (rest : List PendingView)
      → pick n ps ≡ some (p, rest)
      → any mine ps ≡ false
      → (mine p ≡ false) × (any mine rest ≡ false)
  unfolding pick
  picked_none n [] p rest e h = absurd (cc e)
  picked_none zero (q ∷ ps) p rest e h =
      let (own, others) = any_cons q ps h in
      (
        subst (λ x. mine x.0 ≡ false) (some_inj e) own,
        subst (λ x. any mine x.1 ≡ false) (some_inj e) others,
      )
  picked_none (suc n) (q ∷ ps) p rest e h =
      let (own, others) = any_cons q ps h in
      let (r, found, same) = picked_behind q p (pick n ps) rest e in
      let (left, right) = picked_none n ps p r found others in
      (left, subst (λ x. any mine x ≡ false) (sym same) (none_mine q r own right))

  -- The head stays fresh, and so is the picked one.
  kept_head :
      (h p : PendingView) (ps r : List PendingView) (es : List VisitorEvent)
      → (any mine ps ≡ false → (mine p ≡ false) × (any mine r ≡ false))
      → Fresh h ps es
      → Fresh p r es
      → Fresh h r es × Fresh p (h ∷ r) es
  kept_head h p ps r es f (inl other) (inl own) = (inl other, inl own)
  kept_head h p ps r es f (inl other) (inr (before, alone)) =
      (inl other, inr (before, none_mine h r other alone))
  kept_head h p ps r es f (inr (before, alone)) k = (inr (before, (f alone).1), inl (f alone).0)

  picked :
      (n : ℕ) (ps : List PendingView) (p : PendingView) (rest : List PendingView)
      (es : List VisitorEvent)
      → pick n ps ≡ some (p, rest)
      → Ready ps es
      → Fresh p rest es × Ready rest es
  unfolding pick
  picked n [] p rest es e h = absurd (cc e)
  picked zero (q ∷ ps) p rest es e h = subst (λ x. Fresh x.0 x.1 es × Ready x.1 es) (some_inj e) h
  picked (suc n) (q ∷ ps) p rest es e h =
      let (r, found, same) = picked_behind q p (pick n ps) rest e in
      let (own, others) = picked n ps p r es found h.1 in
      let (first, second) = kept_head q p ps r es (picked_none n ps p r found) h.0 own in
      subst (λ x. Fresh p x es × Ready x es) (sym same) (second, (first, others))

  -- The events are spaced, and the pending views may come.
  record Calm (t : Traffic) : Type 0 where
    spaced : Spaced id session t.events
    ready : Ready t.pending t.events

  -- A picked view is written.
  view_written :
      (p : PendingView) (delay : ℕ) (rest : List PendingView) (es : List VisitorEvent)
      → Spaced id session es
      → Fresh p rest es
      → Ready rest es
      → Calm (record { events = create_view delay p es; pending = rest })
  unfolding create_view
  view_written p delay rest es h (inl other) others = record {
    spaced = (inl (other_view (p.archive_id == id) (is_text p.session session) other), h);
    ready =
        other-Ready rest _ es (other_view (p.archive_id == id) (is_text p.session session) other)
          others;
  }
  view_written p delay rest es h (inr (before, alone)) others = record {
    spaced = (inr (later-Before p.decided_at delay id session es before), h);
    ready = none-Ready rest _ alone;
  }

  ended-Calm :
      (delay n : ℕ) (t : Traffic) (o : Option (PendingView × List PendingView))
      → pick n t.pending ≡ o
      → Calm t
      → Calm (ended delay o t)
  ended-Calm delay n t none e h = h
  ended-Calm delay n t (some (p, rest)) e h =
      let (own, others) = picked n t.pending p rest t.events e h.ready in
      view_written p delay rest t.events h.spaced own others

  -- A view that is decided on.
  decided_view :
      (now : ℕ) (archive_id : String) (visitor : Option String) (t : Traffic)
      → Apart
          (some (record { archive_id = archive_id; session = visitor; decided_at = now }))
          t.pending
      → should_record now archive_id visitor t.events ≡ true
      → Fresh
          (record { archive_id = archive_id; session = visitor; decided_at = now })
          t.pending
          t.events
  unfolding should_record
  decided_view now archive_id none t apart fresh = inl (no_name (archive_id == id))
  decided_view now archive_id (some visitor) t apart fresh =
      elim (Bool-cases ((archive_id == id) && visitor == session)) [
        | inl own ↦
            let names = named_both (archive_id == id) (visitor == session) own in
            let same_id = (eq_iff archive_id id).0 names.0 in
            let same_session = (eq_iff visitor session).0 names.1 in
            inr (
              not_recent now id session t.events (
                  subst (λ s. any (is_recent_view now id s) t.events ≡ false) same_session
                    (subst (λ i. any (is_recent_view now i visitor) t.events ≡ false) same_id
                      (true_of_not _ fresh))),
              subst (λ s. any (λ q. (q.archive_id == id) && is_text q.session s) t.pending ≡ false)
                  same_session
                  (subst
                    (λ i.
                      any (λ q. (q.archive_id == i) && is_text q.session visitor) t.pending ≡ false)
                    same_id apart),
            )
        | inr other ↦ inl other
      ]

  looked :
      (now : ℕ) (visitor found : Option String) (t : Traffic)
      → Apart (decided now visitor found t.events).1 t.pending
      → Calm t
      → Calm (record {
        events = t.events;
        pending = begun (decided now visitor found t.events).1 t.pending;
      })
  looked now visitor none t apart h = record { spaced = h.spaced; ready = h.ready }
  looked now visitor (some archive_id) t apart h =
      elim (Bool-cases (should_record now archive_id visitor t.events)) [
        | inl fresh ↦ rw (fresh) (record {
          spaced = h.spaced;
          ready = (decided_view now archive_id visitor t (rw (fresh) at apart) fresh, h.ready);
        })
        | inr recent ↦ rw (recent) (record { spaced = h.spaced; ready = h.ready })
      ]

  downloaded :
      (now : ℕ) (archive_id : String) (visitor : Option String) (t : Traffic)
      → Calm t
      → Calm
          (record { events = record_download now archive_id visitor t.events; pending = t.pending })
  unfolding record_download
  downloaded now archive_id visitor t h =
      let other = no_download (archive_id == id) (is_text (truthy visitor) session) in
      record {
        spaced = (inl other, h.spaced);
        ready = other-Ready t.pending _ t.events other h.ready;
      }

  traffic-Calm : (steps : List Step) → Exclusive steps → Calm (traffic steps)
  unfolding traffic Exclusive step look_up
  traffic-Calm [] alone = record { spaced = tt; ready = tt }
  traffic-Calm (looks db now slug visitor ∷ ss) alone =
      looked now (truthy visitor) (published_slug slug db) (traffic ss) alone.0
        (traffic-Calm ss alone.1)
  traffic-Calm (writes n delay ∷ ss) alone =
      ended-Calm delay n (traffic ss) (pick n (traffic ss).pending) refl (traffic-Calm ss alone)
  traffic-Calm (downloads now archive_id visitor ∷ ss) alone =
      downloaded now archive_id visitor (traffic ss) (traffic-Calm ss alone)

-- Through any interleaving of the two halves of getArchiveBySlug and of downloads, in which no request
-- looks for a recent view while another one is about to write a view of the same archive and session,
-- the views that are counted for an archive and a session lie more than fifteen minutes apart.
pub traffic-Spaced :
    (id session : String) (steps : List Step)
    → Exclusive steps
    → Spaced id session (traffic steps).events
traffic-Spaced id session steps alone = (traffic-Calm id session steps alone).spaced
