-- ===== src/Metrics/Histogram.antt =====
-- What the histogram of metrics.py shows.
use apparitor.Prelude.{
  ℕ, zero, suc, ◌+◌, String, Option, none, some, List, [], ◌∷◌, ◌≡◌, refl, ap, ltb, leb, length,
  replicate, length-replicate, All, arith, if◌then◌else◌, ◌≤◌, inl, inr, Bool-cases, ◌∙◌,
}
use apparitor.Metrics.InMemory.{
  InMemoryMetrics, bisect_left, bump, cumulate, init, record_decision, latency_histogram,
}

-- Ascending.
abbrev pub IsSorted : List ℕ → Type 0
IsSorted [] = Unit
IsSorted (b ∷ bs) = All (λ c. b ≤ c) bs × IsSorted bs

-- Decisions with these verdicts, statuses and latencies, the last one first.
abbrev pub record_all : List (String × String × ℕ) → InMemoryMetrics → InMemoryMetrics
unfolding record_decision
record_all [] m = m
record_all ((v, t, x) ∷ rest) m = record_decision v t x (record_all rest m)

-- The number of latencies that are at most `b`.
abbrev pub count_upto : ℕ → List (String × String × ℕ) → ℕ
count_upto b [] = 0
count_upto b ((v, t, x) ∷ rest) = (if leb x b then 1 else 0) + count_upto b rest

-- What the histogram should be.
abbrev pub expected : List ℕ → List (String × String × ℕ) → List (Option ℕ × ℕ)
expected [] calls = (none, length calls) ∷ []
expected (b ∷ bs) calls = (some b, count_upto b calls) ∷ expected bs calls

-- The entries with one more latency.
abbrev one_more : ℕ → List (Option ℕ × ℕ) → List (Option ℕ × ℕ)
one_more x [] = []
one_more x ((none, n) ∷ rest) = (none, suc n) ∷ one_more x rest
one_more x ((some b, n) ∷ rest) = (some b, (if leb x b then 1 else 0) + n) ∷ one_more x rest

cumulate-suc :
    (x : ℕ) (bs cs : List ℕ) (n : ℕ)
    → All (λ c. x ≤ c) bs
    → cumulate bs cs (suc n) ≡ one_more x (cumulate bs cs n)
unfolding cumulate
cumulate-suc x [] [] n h = refl
cumulate-suc x [] (c ∷ cs) n h = ground arith
cumulate-suc x (b ∷ bs) [] n h = refl
cumulate-suc x (b ∷ bs) (c ∷ cs) n (le, h) = ground (arith, cumulate-suc x bs cs (n + c) h, le)

All-trans : (x b : ℕ) (bs : List ℕ) → x ≤ b → All (λ c. b ≤ c) bs → All (λ c. x ≤ c) bs
All-trans x b [] le h = tt
All-trans x b (c ∷ bs) le (h, hs) = (omega arith, All-trans x b bs le hs)

cumulate-bump :
    (x : ℕ) (bs cs : List ℕ) (n : ℕ)
    → IsSorted bs
    → length cs ≡ suc (length bs)
    → cumulate bs (bump (bisect_left bs x) cs) n ≡ one_more x (cumulate bs cs n)
unfolding cumulate bump bisect_left
cumulate-bump x [] [] n sorted h = absurd (ground (arith, h))
cumulate-bump x [] (c ∷ cs) n sorted h = ground arith
cumulate-bump x (b ∷ bs) [] n sorted h = absurd (ground (arith, h))
cumulate-bump x (b ∷ bs) (c ∷ cs) n (le, sorted) h = elim (Bool-cases (ltb b x)) [
  | inl below ↦ rw below (ground (arith, cumulate-bump x bs cs (n + c) sorted, h, below))
  | inr above ↦ rw above (
      ground
        (arith, cumulate-suc x bs cs (n + c) (All-trans x b bs (ground (arith, above)) le), above))
]

length-bump : (i : ℕ) (cs : List ℕ) → length (bump i cs) ≡ length cs
unfolding bump
length-bump i [] = refl
length-bump zero (c ∷ cs) = refl
length-bump (suc i) (c ∷ cs) = ap suc (length-bump i cs)

cumulate-zeros : (bs : List ℕ) → cumulate bs (replicate (suc (length bs)) 0) 0 ≡ expected bs []
unfolding cumulate
cumulate-zeros [] = refl
cumulate-zeros (b ∷ bs) = ground (arith, cumulate-zeros bs)

one_more-expected :
    (bs : List ℕ) (v t : String) (x : ℕ) (calls : List (String × String × ℕ))
    → one_more x (expected bs calls) ≡ expected bs ((v, t, x) ∷ calls)
one_more-expected [] v t x calls = refl
one_more-expected (b ∷ bs) v t x calls = ground (arith, one_more-expected bs v t x calls)

record_all-buckets :
    (bs : List ℕ) (calls : List (String × String × ℕ))
    → ((record_all calls (init bs)).buckets ≡ bs)
      × (length (record_all calls (init bs)).bucket_counts ≡ suc (length bs))
unfolding init record_decision
record_all-buckets bs [] = (refl, ap suc (length-replicate (length bs) 0))
record_all-buckets bs ((v, t, x) ∷ calls) =
    let (a, b) = record_all-buckets bs calls in (a, length-bump _ _ ∙ b)

-- After any decisions, recorded from fresh metrics with ascending buckets, the histogram has for
-- each bound the number of latencies that are at most the bound, and for +Inf the number of all.
pub latency_histogram_lem :
    (bs : List ℕ) (calls : List (String × String × ℕ))
    → IsSorted bs
    → latency_histogram (record_all calls (init bs)) ≡ expected bs calls
unfolding latency_histogram init record_decision
latency_histogram_lem bs [] sorted = cumulate-zeros bs
latency_histogram_lem bs ((v, t, x) ∷ calls) sorted =
    let (a, b) = record_all-buckets bs calls in
    let h = latency_histogram_lem bs calls sorted in
    rw a (cumulate-bump x bs (record_all calls (init bs)).bucket_counts 0 sorted b)
    ∙ ap (one_more x) (rw a at h)
    ∙ one_more-expected bs v t x calls
