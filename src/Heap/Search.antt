-- ===== src/Heap/Search.antt =====
-- The search of `heap_request_memory` for a run of free blocks, and what its loop keeps.
use koko_os.Prelude.{
  ℕ, zero, suc, ◌+◌, ◌-◌, ◌≤◌, ◌<◌, ◌≡◌, ◌≢◌, refl, ◌⊎◌, inl, inr, Bool, true, false, arith,
  lt-cases, Bool-cases, ◌==◌, ==_iff,
}
use koko_os.Heap.{search_step, search_loop}

module _ (free : ℕ → Bool) where
  -- The `n` blocks from `s` on are free.
  abbrev pub IsRun : ℕ → ℕ → Type 0
  IsRun s n = (k : ℕ) → s ≤ k → k < s + n → free k ≡ true

  -- What the loop keeps before round `i`: the last `count` blocks are free, `current` is the first
  -- of them, the block before them is taken, and no run of `required` blocks has been passed.
  pub record Scanned (required i current count : ℕ) : Type 0 where
    pub within : count ≤ i
    pub run : IsRun (i - count) count
    pub maximal : count < i → free (i - count - 1) ≡ false
    pub start : 0 < count → current ≡ i - count
    pub passed : (s : ℕ) → s + required ≤ i → ¬ IsRun s required

  pub record Found (required total : ℕ) (r : ℕ × ℕ) : Type 0 where
    pub count : r.1 ≡ required
    pub inside : r.0 + required ≤ total
    pub run : IsRun r.0 required
    pub first : (s : ℕ) → s < r.0 → ¬ IsRun s required

  pub record Missing (required total : ℕ) (r : ℕ × ℕ) : Type 0 where
    pub count : r.1 ≢ required
    pub nowhere : (s : ℕ) → s + required ≤ total → ¬ IsRun s required

  step-Scanned_taken :
      (required i current count : ℕ)
      → 0 < required
      → Scanned required i current count
      → free i ≡ false
      → Scanned required (i + 1) 0 0
  step-Scanned_taken required i current count pos v t = record {
    within = omega arith;
    run = λ k lo hi. absurd (omega arith);
    maximal = λ _. ground (arith, t);
    start = λ h. absurd (omega arith);
    passed = λ s h r. elim (lt-cases i (s + required)) [
      | inl new ↦ ground (arith, r i (omega arith) new)
      | inr old ↦ v.passed s old r
    ];
  }

  step-Scanned_more :
      (required i current count : ℕ)
      → Scanned required i current count
      → free i ≡ true
      → count + 1 < required
      → Scanned required (i + 1) (search_step true i current count).0 (count + 1)
  unfolding search_step
  step-Scanned_more required i current count v t small = record {
    within = omega (arith, v.within);
    run = λ k lo hi. elim (lt-cases k i) [
      | inl old ↦ v.run k (omega arith) (omega (arith, v.within))
      | inr new ↦ ground (arith, t)
    ];
    maximal = λ h. ground (arith, v.maximal (omega arith));
    start = λ h. ground (arith, v.start, v.within);
    passed = λ s h r. elim (lt-cases i (s + required)) [
      | inl new ↦
          ground (arith, v.maximal (omega arith), r (i - count - 1) (omega arith) (omega arith))
      | inr old ↦ v.passed s old r
    ];
  }

  step-Found :
      (required i current count : ℕ) (total : ℕ)
      → Scanned required i current count
      → free i ≡ true
      → i < total
      → count + 1 ≡ required
      → Found required total (search_step true i current count)
  unfolding search_step
  step-Found required i current count total v t h full =
      let e : search_step true i current count ≡ (i - count, required) =
        ground (arith, v.start, v.within) in
      rw e (record {
        count = refl;
        inside = omega (arith, v.within);
        run = λ k lo hi. elim (lt-cases k i) [
          | inl old ↦ v.run k lo (omega (arith, v.within))
          | inr new ↦ ground (arith, t)
        ];
        first = λ s h r. v.passed s (omega (arith, v.within)) r;
      })

  module _ (n required i current count : ℕ) where
    search_loop-found :
        free i ≡ true
        → count + 1 ≡ required
        → search_loop (suc n) free required i current count ≡ search_step true i current count
    unfolding search_loop search_step
    search_loop-found t full = ground arith

    search_loop-grow :
        free i ≡ true
        → count + 1 ≢ required
        → search_loop (suc n) free required i current count
          ≡ search_loop n free required (i + 1) (search_step true i current count).0 (count + 1)
    unfolding search_loop search_step
    search_loop-grow t more = ground arith

    search_loop-reset :
        free i ≡ false
        → 0 ≢ required
        → search_loop (suc n) free required i current count
          ≡ search_loop n free required (i + 1) 0 0
    unfolding search_loop search_step
    search_loop-reset t more = ground arith

  -- The loop, from any round on.
  search_loop-cases :
      (n required i current count total : ℕ)
      → 0 < required
      → count < required
      → i + n ≡ total
      → Scanned required i current count
      → Found required total (search_loop n free required i current count)
        ⊎ Missing required total (search_loop n free required i current count)
  unfolding search_loop
  search_loop-cases zero required i current count total pos small e v =
      inr (record { count = omega arith; nowhere = λ s h. v.passed s (omega arith) })
  search_loop-cases (suc n) required i current count total pos small e v =
      elim (Bool-cases (free i)) [
        | inl t ↦ elim (Bool-cases (count + 1 == required)) [
          | inl full ↦
              let full' : count + 1 ≡ required = (==_iff _ _).0 full in
              rw (search_loop-found n required i current count t full')
                (inl (step-Found required i current count total v t (omega arith) full'))
          | inr more ↦
              let small' : count + 1 < required = ground arith in
              rw (search_loop-grow n required i current count t (omega arith)) (
                search_loop-cases n required (i + 1) (search_step true i current count).0
                  (count + 1) total pos small' (omega arith)
                  (step-Scanned_more required i current count v t small'))
        ]
        | inr t ↦ rw (search_loop-reset n required i current count t (omega arith)) (
            search_loop-cases n required (i + 1) 0 0 total pos pos (omega arith)
              (step-Scanned_taken required i current count pos v t))
      ]

  start-Scanned : (required : ℕ) → 0 < required → Scanned required 0 0 0
  start-Scanned required pos = record {
    within = omega arith;
    run = λ k lo hi. absurd (omega arith);
    maximal = λ h. absurd (omega arith);
    start = λ h. absurd (omega arith);
    passed = λ s h. absurd (omega arith);
  }

  -- Of the first `total` blocks, the search for one block or more yields the first run of
  -- `required` free blocks, or a count that differs from `required`, and then there is no such run.
  pub search_loop_lem :
      (required total : ℕ)
      → 0 < required
      → Found required total (search_loop total free required 0 0 0)
        ⊎ Missing required total (search_loop total free required 0 0 0)
  search_loop_lem required total pos =
      search_loop-cases total required 0 0 0 total pos pos (omega arith)
        (start-Scanned required pos)
