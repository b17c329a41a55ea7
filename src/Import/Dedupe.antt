-- ===== src/Import/Dedupe.antt =====
-- python/scmdb_watcher/import_service.py, `dedupe_missions_by_guid`, for missions of any type:
-- `none` in place of a guid is a mission whose "guid" is no string.
use scmdb_log_watcher_es.Base.{
  ℕ, ◌+◌, ◌≤◌, ◌-◌, ◌≡◌, refl, ap, ◌∙◌, Bool, true, false, Option, none, some, List, [], ◌∷◌,
  length, ◌||◌, if◌then◌else◌, arith, Bool-cases, Option-cases, inl, inr,
}
use scmdb_log_watcher_es.Text.{Text, text_eq, text_eq_iff, text_eq_refl}

-- `guid in seen_guids`.
unfoldable pub is_seen : Text → List Text → Bool
is_seen guid [] = false
is_seen guid (g ∷ seen) = text_eq guid g || is_seen guid seen

module _ {M : Type 0} (guid_of : M → Option Text) where
  abbrev seen_guid : Option Text → List Text → Bool
  seen_guid none seen = false
  seen_guid (some guid) seen = is_seen guid seen

  abbrev noted : Option Text → List Text → List Text
  noted none seen = seen
  noted (some guid) seen = guid ∷ seen

  unfoldable pub dedupe_loop : List Text → List M → List M
  dedupe_loop seen [] = []
  dedupe_loop seen (m ∷ ms) =
      let skip = seen_guid (guid_of m) seen in
      let rest = dedupe_loop (if skip then seen else noted (guid_of m) seen) ms in
      if skip then rest else m ∷ rest

  unfoldable pub dedupe_missions_by_guid : List M → List M × ℕ
  unfolding dedupe_loop is_seen
  dedupe_missions_by_guid missions =
      let deduped = dedupe_loop [] missions in (deduped, length missions - length deduped)

  abbrev pub has_guid : Text → Option Text → Bool
  has_guid guid none = false
  has_guid guid (some g) = text_eq guid g

  -- The first mission with a guid.
  unfoldable pub first : Text → List M → Option M
  first guid [] = none
  first guid (m ∷ ms) =
      let rest = first guid ms in if has_guid guid (guid_of m) then some m else rest

  abbrev onto_without : Option Text → M → List M → List M
  onto_without none m ms = m ∷ ms
  onto_without (some guid) m ms = ms

  -- The missions without a guid, in order.
  abbrev pub without_guid : List M → List M
  without_guid [] = []
  without_guid (m ∷ ms) = onto_without (guid_of m) m (without_guid ms)

  abbrev NotAmong : Option Text → List M → Type 0
  NotAmong none ms = Unit
  NotAmong (some guid) ms = first guid ms ≡ none

  -- No two missions have one guid.
  abbrev pub Nodup : List M → Type 0
  Nodup [] = Unit
  Nodup (m ∷ ms) = NotAmong (guid_of m) ms × Nodup ms

  -- One mission of the loop: skipped, kept with its guid noted, or kept without a guid.
  data Pass (m : M) (ms : List M) (seen : List Text) : Type 0 where
    skipped :
        (guid : Text)
        → guid_of m ≡ some guid
        → is_seen guid seen ≡ true
        → dedupe_loop seen (m ∷ ms) ≡ dedupe_loop seen ms
        → Pass m ms seen
    kept :
        (guid : Text)
        → guid_of m ≡ some guid
        → is_seen guid seen ≡ false
        → dedupe_loop seen (m ∷ ms) ≡ m ∷ dedupe_loop (guid ∷ seen) ms
        → Pass m ms seen
    kept_without :
        guid_of m ≡ none → dedupe_loop seen (m ∷ ms) ≡ m ∷ dedupe_loop seen ms → Pass m ms seen

  pass : (m : M) (ms : List M) (seen : List Text) → Pass m ms seen
  unfolding dedupe_loop
  pass m ms seen = elim (Option-cases (guid_of m)) [
    | inl e ↦ kept_without e (rw e refl)
    | inr (g, e) ↦ elim (Bool-cases (is_seen g seen)) [
      | inl y ↦ skipped g e y (rw e (rw y refl))
      | inr n ↦ kept g e n (rw e (rw n refl))
    ]
  ]

  first-dedupe_loop :
      (guid : Text) (seen : List Text) (ms : List M)
      → first guid (dedupe_loop seen ms) ≡ (if is_seen guid seen then none else first guid ms)
  unfolding first is_seen dedupe_loop
  first-dedupe_loop guid seen [] = ground arith
  first-dedupe_loop guid seen (m ∷ ms) = elim (pass m ms seen) [
    | skipped g e y eq ↦
        rw (eq, e) (ground (arith, first-dedupe_loop guid seen ms, text_eq_iff guid g))
    | kept g e n eq ↦
        rw (eq, e) (ground (arith, first-dedupe_loop guid (g ∷ seen) ms, text_eq_iff guid g))
    | kept_without e eq ↦ rw (eq, e) (first-dedupe_loop guid seen ms)
  ]

  without_guid-dedupe_loop :
      (seen : List Text) (ms : List M) → without_guid (dedupe_loop seen ms) ≡ without_guid ms
  unfolding dedupe_loop
  without_guid-dedupe_loop seen [] = refl
  without_guid-dedupe_loop seen (m ∷ ms) = elim (pass m ms seen) [
    | skipped g e y eq ↦ rw (eq, e) (without_guid-dedupe_loop seen ms)
    | kept g e n eq ↦ rw (eq, e) (without_guid-dedupe_loop (g ∷ seen) ms)
    | kept_without e eq ↦ rw (eq, e) (ap (λ r. m ∷ r) (without_guid-dedupe_loop seen ms))
  ]

  length-dedupe_loop : (seen : List Text) (ms : List M) → length (dedupe_loop seen ms) ≤ length ms
  unfolding dedupe_loop
  length-dedupe_loop seen [] = omega arith
  length-dedupe_loop seen (m ∷ ms) =
      let h =
        length-dedupe_loop (if seen_guid (guid_of m) seen then seen else noted (guid_of m) seen)
          ms in
      ground (arith, h)

  dedupe_loop-Nodup : (seen : List Text) (ms : List M) → Nodup (dedupe_loop seen ms)
  unfolding is_seen dedupe_loop
  dedupe_loop-Nodup seen [] = tt
  dedupe_loop-Nodup seen (m ∷ ms) = elim (pass m ms seen) [
    | skipped g e y eq ↦ rw eq (dedupe_loop-Nodup seen ms)
    | kept g e n eq ↦
        rw (eq, e)
          (
            first-dedupe_loop g (g ∷ seen) ms ∙ rw (text_eq_refl g) refl,
            dedupe_loop-Nodup (g ∷ seen) ms,
          )
    | kept_without e eq ↦ rw (eq, e) (tt, dedupe_loop-Nodup seen ms)
  ]

  -- Deduplication keeps no two missions with one guid; for every guid the first mission that has it
  -- stays the first; the missions without a guid all stay, in order; and the number given back is
  -- how many missions were dropped.
  pub dedupe_missions_by_guid_lem :
      (missions : List M)
      → let (deduped, dropped) = dedupe_missions_by_guid missions in
        Nodup deduped
        × ((guid : Text) → first guid deduped ≡ first guid missions)
        × (without_guid deduped ≡ without_guid missions)
        × (dropped + length deduped ≡ length missions)
  unfolding dedupe_missions_by_guid
  dedupe_missions_by_guid_lem missions = (
    dedupe_loop-Nodup [] missions,
    λ guid. first-dedupe_loop guid [] missions,
    without_guid-dedupe_loop [] missions,
    omega (arith, length-dedupe_loop [] missions),
  )

  -- A list without two missions of one guid stays as it is, and nothing is dropped.
  dedupe_loop-same :
      (seen : List Text) (ms : List M)
      → Nodup ms
      → ((guid : Text) → is_seen guid seen ≡ true → first guid ms ≡ none)
      → dedupe_loop seen ms ≡ ms
  unfolding dedupe_loop first is_seen
  dedupe_loop-same seen [] h k = refl
  dedupe_loop-same seen (m ∷ ms) h k = elim (pass m ms seen) [
    | skipped g e y eq ↦
        let c : some m ≡ none = rw (e, text_eq_refl g) at (k g y) in ground (arith, c)
    | kept g e n eq ↦
        let f : first g ms ≡ none = rw e at h.0 in
        eq
        ∙ ap (λ r. m ∷ r)
            (dedupe_loop-same (g ∷ seen) ms h.1
              (λ guid y. ground (arith, k guid, f, text_eq_iff guid g)))
    | kept_without e eq ↦
        eq ∙ ap (λ r. m ∷ r) (dedupe_loop-same seen ms h.1 (λ guid y. rw e at (k guid y)))
  ]

  -- Deduplicating a second time changes nothing and drops nothing.
  pub dedupe_missions_by_guid-dedupe_missions_by_guid :
      (missions : List M)
      → dedupe_missions_by_guid (dedupe_missions_by_guid missions).0
        ≡ ((dedupe_missions_by_guid missions).0, 0)
  unfolding dedupe_missions_by_guid
  dedupe_missions_by_guid-dedupe_missions_by_guid missions =
      let ms = dedupe_loop [] missions in
      let e : dedupe_loop [] ms ≡ ms =
        dedupe_loop-same [] ms (dedupe_loop-Nodup [] missions) (λ guid y. ground (arith, y)) in
      rw e (ap {B = List M × ℕ} (λ n. (ms, n)) (omega arith))
