-- ===== src/Readiness/Probes.antt =====
-- cmd/server/main.go: what an answer of the readiness probe says, and how old it may be.
use mathlib.Core.List.{Memᴰ}
use go_task_q.Readiness.{
  Snapshot, probe, respond, no_snapshot, cache_ttl, count_alive, alive_one, is_fresh,
}
use go_task_q.Base.{
  ◌∙◌, inr, Bool-cases, ap, inl, refl, ◌+◌, ◌<◌, arith, length, some, ◌↔◌, none, ◌⊎◌, ◌==◌, [],
  true, ◌≡◌, ◌∷◌, String, Option, List,
}
use go_task_q.Time.{Time}

-- A request, with what the pings would give at its time.
pub record Request : Type 0 where
  pub now : Time
  pub pg : Option String
  pub pings : List (Option String)

unfoldable pub answers : Snapshot → List Request → List Snapshot
answers s [] = []
answers s (q ∷ qs) = let s' = respond q.now q.pg q.pings s in s' ∷ answers s' qs

pg_alive : (pg : Option String) → (alive_one pg == 1) ≡ true → pg ≡ none
pg_alive none h = refl
pg_alive (some e) h = absurd (ground arith)

-- A probe reports the service ready exactly when Postgres answers its ping and more than half of
-- the Redis clients do.
pub probe_ready_iff :
    (now : Time) (pg : Option String) (pings : List (Option String))
    → ((probe now pg pings).ready ≡ true)
      ↔ ((pg ≡ none) × (length pings < count_alive pings + count_alive pings))
unfolding probe
probe_ready_iff now none pings = ((λ h. (refl, ground (arith, h))), λ (e, m). ground (arith, m))
probe_ready_iff now (some e) pings = ((λ h. absurd (ground arith)), λ (q, m). cc)

-- The answer is that of a probe made at one of the requests, at most two seconds before.
abbrev pub IsRecent : List Request → Time → Snapshot → Type 0
IsRecent qs now s =
    (q : Request) × Memᴰ q qs × (s ≡ probe q.now q.pg q.pings) × (now < q.now + cache_ttl)

-- The cache holds nothing, or what a probe at an earlier request gave.
abbrev IsCached : List Request → Snapshot → Type 0
IsCached past s = (s.expires ≡ 0) ⊎ ((p : Request) × Memᴰ p past × (s ≡ probe p.now p.pg p.pings))

probe-IsRecent :
    (q : Request) (past : List Request) → IsRecent (q ∷ past) q.now (probe q.now q.pg q.pings)
probe-IsRecent q past = (q, Memᴰ.head refl, refl, omega arith)

expires_lem :
    (p : Request) (s : Snapshot) → s ≡ probe p.now p.pg p.pings → s.expires ≡ p.now + cache_ttl
expires_lem p s e = ap Snapshot.expires e ∙ unfold probe in refl

fresh-IsRecent :
    (q : Request) (past : List Request) (s : Snapshot)
    → IsCached past s
    → is_fresh q.now s ≡ true
    → IsRecent (q ∷ past) q.now s
fresh-IsRecent q past s (inl z) h = absurd (ground (arith, z, h))
fresh-IsRecent q past s (inr (p, m, e)) h =
    (p, Memᴰ.tail m, e, ground (arith, h, expires_lem p s e))

respond-IsRecent :
    (q : Request) (past : List Request) (s : Snapshot)
    → IsCached past s
    → IsRecent (q ∷ past) q.now (respond q.now q.pg q.pings s)
unfolding respond
respond-IsRecent q past s c = elim (Bool-cases (is_fresh q.now s)) [
  | inl t ↦ rw t (fresh-IsRecent q past s c t)
  | inr f ↦ rw f (probe-IsRecent q past)
]

abbrev pub AreRecent : List Request → List Request → List Snapshot → Type 0
AreRecent past [] [] = Unit
AreRecent past (q ∷ qs) (s ∷ ss) = IsRecent (q ∷ past) q.now s × AreRecent (q ∷ past) qs ss
AreRecent past _ _ = ⊥

answers-AreRecent :
    (past : List Request) (s : Snapshot) (qs : List Request)
    → IsCached past s
    → AreRecent past qs (answers s qs)
unfolding answers
answers-AreRecent past s [] c = tt
answers-AreRecent past s (q ∷ qs) c =
    let (p, m, e, young) = respond-IsRecent q past s c in
    (
      (p, m, e, young),
      answers-AreRecent (q ∷ past) (respond q.now q.pg q.pings s) qs (inr (p, m, e)),
    )

-- From the start of the process, with requests answered one after the other: each is answered with
-- the result of a probe made at that request or at an earlier one, less than two seconds before.
pub answers-recent : (qs : List Request) → AreRecent [] qs (answers no_snapshot qs)
answers-recent qs = answers-AreRecent [] no_snapshot qs (inl refl)
