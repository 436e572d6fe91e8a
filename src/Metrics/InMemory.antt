-- ===== src/Metrics/InMemory.antt =====
-- metrics.py: `InMemoryMetrics`, the latency histogram and the counters. Latencies and bounds are
-- whole numbers of one small unit.
use apparitor.Prelude.{
  ℕ, zero, suc, ◌+◌, String, Bool, true, false, ◌&&◌, Option, none, some, List, [], ◌∷◌, ltb,
  length, replicate, if◌then◌else◌, ◌==◌,
}

pub record InMemoryMetrics : Type 0 where
  pub buckets : List ℕ
  pub decisions : List ((String × String) × ℕ)
  pub bucket_counts : List ℕ
  pub latency_sum : ℕ
  pub latency_count : ℕ
  pub cache_hits : ℕ
  pub cache_misses : ℕ

-- `bisect_left` on a sorted list: the index of the first bound that is not below `x`.
unfoldable pub bisect_left : List ℕ → ℕ → ℕ
bisect_left [] x = 0
bisect_left (b ∷ bs) x = if ltb b x then suc (bisect_left bs x) else 0

-- `counts[i] += 1`
unfoldable pub bump : ℕ → List ℕ → List ℕ
bump i [] = []
bump zero (c ∷ cs) = suc c ∷ cs
bump (suc i) (c ∷ cs) = c ∷ bump i cs

-- `self.decisions[key] = self.decisions.get(key, 0) + 1`
unfoldable pub count_key :
    String → String → List ((String × String) × ℕ) → List ((String × String) × ℕ)
count_key v t [] = ((v, t), 1) ∷ []
count_key v t (((a, b), n) ∷ rest) =
    if a == v && b == t then ((a, b), suc n) ∷ rest else ((a, b), n) ∷ count_key v t rest

-- The constructor, on buckets that are sorted already.
unfoldable pub init : List ℕ → InMemoryMetrics
init buckets = record {
  buckets = buckets;
  decisions = [];
  bucket_counts = replicate (suc (length buckets)) 0;
  latency_sum = 0;
  latency_count = 0;
  cache_hits = 0;
  cache_misses = 0;
}

unfoldable pub record_decision : String → String → ℕ → InMemoryMetrics → InMemoryMetrics
unfolding bisect_left bump count_key
record_decision verdict status latency m = record m {
  decisions = count_key verdict status m.decisions;
  bucket_counts = bump (bisect_left m.buckets latency) m.bucket_counts;
  latency_sum = m.latency_sum + latency;
  latency_count = suc m.latency_count;
}

unfoldable pub record_cache : Bool → InMemoryMetrics → InMemoryMetrics
record_cache true m = record m { cache_hits = suc m.cache_hits }
record_cache false m = record m { cache_misses = suc m.cache_misses }

-- The loop over bounds and counts, with the sum so far; `none` is the bound +Inf.
unfoldable pub cumulate : List ℕ → List ℕ → ℕ → List (Option ℕ × ℕ)
cumulate [] [] cumulative = []
cumulate [] (c ∷ cs) cumulative = (none, cumulative + c) ∷ []
cumulate (b ∷ bs) [] cumulative = []
cumulate (b ∷ bs) (c ∷ cs) cumulative = (some b, cumulative + c) ∷ cumulate bs cs (cumulative + c)

unfoldable pub latency_histogram : InMemoryMetrics → List (Option ℕ × ℕ)
unfolding cumulate
latency_histogram m = cumulate m.buckets m.bucket_counts 0

unfoldable pub reset : InMemoryMetrics → InMemoryMetrics
unfolding init
reset m = init m.buckets
