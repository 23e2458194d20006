-- ===== src/Task/Lock/Wait.antt =====
-- How the wait for a slot ends (the loop of `_jump_host_lock_context`).
use backup_center_ajust_cons.Base.{
  ℕ, ◌+◌, ◌≤◌, ◌<◌, ◌≡◌, Bool, true, false, ◌||◌, none, some, suc, zero, leb, arith, Bool-cases,
  Option-cases, inl, inr, leb→le,
}
use backup_center_ajust_cons.Task.Lock.{
  Round, first_slot, Waited, acquired, cancelled, timed_out, out_of_fuel, after_slots, wait,
}

-- Each round of the loop sleeps at least a second, so round `i` starts `i` seconds in at least.
abbrev pub Ticks : (ℕ → Round) → Type 0
Ticks rounds = (i : ℕ) → i ≤ (rounds i).elapsed

-- No slot could be had.
abbrev pub AllTaken : ℕ → Round → Type 0
AllTaken slots r = (idx : ℕ) → 1 ≤ idx → idx ≤ slots → r.acquires idx ≡ false

-- Why the wait ended as it did.
abbrev pub Justified : ℕ → ℕ → (ℕ → Round) → ℕ → Waited → Type 0
Justified limit slots rounds from (acquired idx) =
    (1 ≤ idx)
    × (idx ≤ slots)
    × ((i : ℕ) × ((rounds i).acquires idx ≡ true)
        × ((rounds i).elapsed < limit)
        × ((rounds i).stopped ≡ false))
Justified limit slots rounds from cancelled =
    (i : ℕ) × (((rounds i).stopped || (rounds i).stopped_asleep) ≡ true)
Justified limit slots rounds from timed_out =
    (i : ℕ) × (limit ≤ (rounds i).elapsed)
    × ((j : ℕ) → from ≤ j → j < i → AllTaken slots (rounds j))
Justified limit slots rounds from out_of_fuel = ⊥

first_slot-some :
    (acquires : ℕ → Bool) (from n idx : ℕ)
    → first_slot acquires from n ≡ some idx
    → (from ≤ idx) × (idx < from + n) × (acquires idx ≡ true)
unfolding first_slot
first_slot-some acquires from zero idx h = cc
first_slot-some acquires from (suc n) idx h =
    ground (arith, first_slot-some acquires (from + 1) n idx)

first_slot-none :
    (acquires : ℕ → Bool) (from n idx : ℕ)
    → first_slot acquires from n ≡ none
    → from ≤ idx
    → idx < from + n
    → acquires idx ≡ false
unfolding first_slot
first_slot-none acquires from zero idx h low high = ground arith
first_slot-none acquires from (suc n) idx h low high =
    ground (arith, first_slot-none acquires (from + 1) n idx)

module _ (limit slots : ℕ) (rounds : ℕ → Round) where
  -- The wait of a later round, seen from the round before.
  earlier :
      (i : ℕ) (w : Waited)
      → AllTaken slots (rounds i)
      → Justified limit slots rounds (i + 1) w
      → Justified limit slots rounds i w
  earlier i (acquired idx) taken h = h
  earlier i cancelled taken h = h
  earlier i timed_out taken (k, late, before) = (
    k,
    late,
    λ j low high. elim (Bool-cases (leb (i + 1) j)) [
      | inl e ↦ before j (leb→le (i + 1) j e) high
      | inr e ↦ let same : j ≡ i = ground arith in rw same taken
    ],
  )
  earlier i out_of_fuel taken h = h

  after_slots-Justified :
      (i : ℕ) (w : Waited)
      → (rounds i).stopped ≡ false
      → (rounds i).elapsed < limit
      → Justified limit slots rounds (i + 1) w
      → Justified limit slots rounds i
          (after_slots (first_slot (rounds i).acquires 1 slots) (rounds i).stopped_asleep w)
  after_slots-Justified i w run early rest =
      elim (Option-cases (first_slot (rounds i).acquires 1 slots)) [
        | inr (idx, e) ↦
            let (low, high, ok) = first_slot-some (rounds i).acquires 1 slots idx e in
            rw e (low, omega arith, (i, ok, early, run))
        | inl e ↦ elim (Bool-cases (rounds i).stopped_asleep) [
          | inl q ↦ rw (e, q) (i, ground arith)
          | inr q ↦
              rw (e, q)
                (earlier i w
                  (λ idx low high.
                    first_slot-none (rounds i).acquires 1 slots idx e low (omega arith))
                  rest)
        ]
      ]

  wait_from-Justified :
      (fuel i : ℕ)
      → Ticks rounds
      → i ≤ limit
      → limit < fuel + i
      → Justified limit slots rounds i (wait limit slots rounds fuel i)
  unfolding wait
  wait_from-Justified zero i ticks low enough = omega arith
  wait_from-Justified (suc fuel) i ticks low enough = elim (Bool-cases (rounds i).stopped) [
    | inl e ↦ rw e (i, ground arith)
    | inr e ↦ elim (Bool-cases (leb limit (rounds i).elapsed)) [
      | inl q ↦ rw (e, q) (i, leb→le limit (rounds i).elapsed q, λ j low high. absurd (omega arith))
      | inr q ↦
          let tick = ticks i in
          let early : (rounds i).elapsed < limit = ground arith in
          rw (e, q)
            (after_slots-Justified i (wait limit slots rounds fuel (i + 1)) e early
              (wait_from-Justified fuel (i + 1) ticks (omega (arith, tick, early)) (omega arith)))
    ]
  ]

-- If each round starts at least as many seconds into the wait as there were rounds before it, the
-- wait for a slot ends within one round for each second of its limit and one more. It ends with a
-- slot between 1 and the limit of the jump host whose lock could be had before the time was up; by
-- a stop flag; or because the time was up, and then no round before had a free slot.
pub wait-Justified :
    (limit slots : ℕ) (rounds : ℕ → Round)
    → Ticks rounds
    → Justified limit slots rounds 0 (wait limit slots rounds (limit + 1) 0)
wait-Justified limit slots rounds ticks =
    wait_from-Justified limit slots rounds (limit + 1) 0 ticks (omega arith) (omega arith)
