-- ===== src/Notifications/Reminders/Again.antt =====
-- Reminders that have been sent are not sent again on the same day.
use mathlib.Core.Path.{subst}
use spoutbreeze_backend.Prelude.{
  ℕ, ◌≡◌, refl, ap, sym, ◌∙◌, Bool, true, false, none, some, List, [], ◌∷◌, arith, elem, inl, inr,
  Option-cases, keep, is_some, All, ◌/◌,
}
use spoutbreeze_backend.Prelude.Session.{Outcome, ok}
use spoutbreeze_backend.Events.Store.{Event}
use spoutbreeze_backend.Notifications.Store.{Key, reminder_key, Notification, World}
use spoutbreeze_backend.Notifications.Service.{check_idempotency, notify}
use spoutbreeze_backend.Notifications.Reminders.Storing.{
  present, Ready, Later, Later-trans, notify-Later, notify-present,
}
use spoutbreeze_backend.Notifications.Reminders.{
  Texts, reminder, counted, remind_recipients, remind_events, send_due_reminders, is_due,
}
use spoutbreeze_backend.Notifications.Reminders.Keys.{
  All-append, All-split, all_keys, all_keys-keep, keys_of, recipients-All, recipients_of,
}

-- What a loop of reminders leaves: an answer, a state that has only grown, and the keys.
pub record Sent (keys : List Key) (w : World) (x : Outcome ℕ × World) : Type 0 where
  pub count : ℕ
  pub answers : x.0 ≡ ok count
  pub later : Later w x.1
  pub there : All (λ k. present k x.1 ≡ true) keys

All-later :
    (keys : List Key) (w w' : World)
    → Later w w'
    → All (λ k. present k w ≡ true) keys
    → All (λ k. present k w' ≡ true) keys
All-later [] w w' l a = tt
All-later (k ∷ ks) w w' l a = (l.keys k a.0, All-later ks w w' l a.1)

Later-refl : (w : World) → Ready w → Later w w
Later-refl w r = record { ready = r; users = refl; keys = λ k h. h }

-- A loop after a first step.
Sent-after :
    (k : Key) (keys : List Key) (w w' : World) (x : Outcome ℕ × World)
    → Later w w'
    → present k w' ≡ true
    → Sent keys w' x
    → Sent (k ∷ keys) w x
Sent-after k keys w w' x l h s = record {
  count = s.count;
  answers = s.answers;
  later = Later-trans w w' x.1 l s.later;
  there = (s.later.keys k h, s.there);
}

module _ (fails : ℕ → Bool) (x : Texts) (day : ℕ) where
  -- One round of the loop.
  skip_step :
      (e : Event) (u : ℕ) (us : List ℕ) (sent : ℕ) (w : World) {n : Notification}
      → w.failed ≡ false
      → check_idempotency (reminder_key e.id u day) w.notifications ≡ some n
      → remind_recipients fails x day e (u ∷ us) sent w ≡ remind_recipients fails x day e us sent w
  unfolding remind_recipients
  skip_step e u us sent w f h = ground (arith, f, h)

  send_step :
      (e : Event) (u : ℕ) (us : List ℕ) (sent : ℕ) (w : World)
      → w.failed ≡ false
      → check_idempotency (reminder_key e.id u day) w.notifications ≡ none
      → let y = notify fails (x.new_id e.id u) (reminder x day e u) (x.address u) w in
        remind_recipients fails x day e (u ∷ us) sent w
        ≡ remind_recipients fails x day e us (counted y.0 sent) y.1
  unfolding remind_recipients
  send_step e u us sent w f h = ground (arith, f, h)

  remind_recipients-Sent :
      (e : Event) (us : List ℕ) (sent : ℕ) (w : World)
      → Ready w
      → All (λ u. elem u w.users ≡ true) us
      → Sent (keys_of day e us) w (remind_recipients fails x day e us sent w)
  unfolding remind_recipients
  remind_recipients-Sent e [] sent w r a = record {
    count = sent;
    answers = refl;
    later = Later-refl w r;
    there = tt;
  }
  remind_recipients-Sent e (u ∷ us) sent w r a =
      let k = reminder_key e.id u day in
      elim (Option-cases (check_idempotency k w.notifications)) [
        | inr (n, h) ↦
            let step = skip_step e u us sent w r.live h in
            subst (Sent (keys_of day e (u ∷ us)) w) (sym step) (
              Sent-after k (keys_of day e us) w w _ (Later-refl w r) (ap is_some h)
                (remind_recipients-Sent e us sent w r a.1))
        | inl h ↦
            let y = notify fails (x.new_id e.id u) (reminder x day e u) (x.address u) w in
            let l =
              notify-Later fails (x.new_id e.id u) (reminder x day e u) (x.address u) w refl refl h
                a.0 r in
            let there =
              notify-present fails (x.new_id e.id u) (reminder x day e u) (x.address u) w refl refl
                h a.0 r in
            let step = send_step e u us sent w r.live h in
            let known = subst (λ vs. All (λ v. elem v vs ≡ true) us) (sym l.users) a.1 in
            subst (Sent (keys_of day e (u ∷ us)) w) (sym step) (
              Sent-after k (keys_of day e us) w y.1 _ l there
                (remind_recipients-Sent e us (counted y.0 sent) y.1 l.ready known))
      ]

  remind_recipients-skip :
      (e : Event) (us : List ℕ) (sent : ℕ) (w : World)
      → Ready w
      → All (λ k. present k w ≡ true) (keys_of day e us)
      → remind_recipients fails x day e us sent w ≡ (ok sent, w)
  unfolding remind_recipients
  remind_recipients-skip e [] sent w r a = refl
  remind_recipients-skip e (u ∷ us) sent w r a =
      let k = reminder_key e.id u day in
      elim (Option-cases (check_idempotency k w.notifications)) [
        | inl h ↦ let b = a.0 in cc
        | inr (n, h) ↦ skip_step e u us sent w r.live h ∙ remind_recipients-skip e us sent w r a.1
      ]

  events_step :
      (e : Event) (es : List Event) (sent : ℕ) (w : World) {n : ℕ}
      → let y = remind_recipients fails x day e (recipients_of w.users e) sent w in
        y.0 ≡ ok n → remind_events fails x day (e ∷ es) sent w ≡ remind_events fails x day es n y.1
  unfolding remind_events
  events_step e es sent w h = ground (arith, h)

  remind_events-Sent :
      (es : List Event) (sent : ℕ) (w : World)
      → Ready w
      → Sent (all_keys day w.users es) w (remind_events fails x day es sent w)
  unfolding remind_events
  remind_events-Sent [] sent w r = record {
    count = sent;
    answers = refl;
    later = Later-refl w r;
    there = tt;
  }
  remind_events-Sent (e ∷ es) sent w r =
      let us = recipients_of w.users e in
      let y = remind_recipients fails x day e us sent w in
      let s = remind_recipients-Sent e us sent w r (recipients-All w.users e) in
      let z = remind_events fails x day es s.count y.1 in
      let rest =
        subst (λ vs. Sent (all_keys day vs es) y.1 z) s.later.users
          (remind_events-Sent es s.count y.1 s.later.ready) in
      subst (Sent (all_keys day w.users (e ∷ es)) w) (sym (events_step e es sent w s.answers))
        (record {
          count = rest.count;
          answers = rest.answers;
          later = Later-trans w y.1 z.1 s.later rest.later;
          there =
              All-append _ (keys_of day e us) (all_keys day w.users es)
                (All-later (keys_of day e us) y.1 z.1 rest.later s.there) rest.there;
        })

  remind_events-skip :
      (es : List Event) (sent : ℕ) (w : World)
      → Ready w
      → All (λ k. present k w ≡ true) (all_keys day w.users es)
      → remind_events fails x day es sent w ≡ (ok sent, w)
  unfolding remind_events
  remind_events-skip [] sent w r a = refl
  remind_events-skip (e ∷ es) sent w r a =
      let us = recipients_of w.users e in
      let (mine, rest) = All-split _ (keys_of day e us) (all_keys day w.users es) a in
      let y = remind_recipients-skip e us sent w r mine in
      events_step e es sent w (ap (λ z. z.0) y)
      ∙ ap (λ z. remind_events fails x day es sent z.1) y
      ∙ remind_events-skip es sent w r rest

-- Without Redis, so that the rate limit is off, the reminders of a day are sent once: the job ends
-- with a count, and a second run on the same day over the same events, when only events are due
-- that were due at the first run, sends nothing and changes nothing.
pub send_due_reminders-again :
    (fails fails' : ℕ → Bool) (x x' : Texts) (now later : ℕ) (es : List Event) (w : World)
    → w.failed ≡ false
    → w.redis ≡ none
    → later / 86400 ≡ now / 86400
    → All (λ e. is_due later e ≡ true → is_due now e ≡ true) es
    → let (r, w') = send_due_reminders fails x now es w in
      ((n : ℕ) × (r ≡ ok n)) × (send_due_reminders fails' x' later es w' ≡ (ok 0, w'))
unfolding send_due_reminders
send_due_reminders-again fails fails' x x' now later es w live off day due =
    let r : Ready w = record { live = live; unlimited = off } in
    let s = remind_events-Sent fails x (now / 86400) (keep (is_due now) es) 0 w r in
    let w' = (remind_events fails x (now / 86400) (keep (is_due now) es) 0 w).1 in
    let there =
      all_keys-keep (λ k. present k w' ≡ true) (now / 86400) w.users (is_due later) (is_due now) es
        due s.there in
    let mine =
      subst
        (λ vs. All (λ k. present k w' ≡ true) (all_keys (now / 86400) vs (keep (is_due later) es)))
        (sym s.later.users) there in
    let again =
      remind_events-skip fails' x' (now / 86400) (keep (is_due later) es) 0 w' s.later.ready mine in
    (
      (s.count, s.answers),
      ap (λ d. remind_events fails' x' d (keep (is_due later) es) 0 w') day ∙ again,
    )
