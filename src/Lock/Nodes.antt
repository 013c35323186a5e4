-- ===== src/Lock/Nodes.antt =====
-- internal/lock/redlock.go: how many nodes a value holds, before and after the calls to all of them.
use go_task_q.Lock.{
  replied, reply_lost, not_run, run_script, Fate, release_single, release_script, Redis, won,
  set_all, release_all,
}
use go_task_q.Base.{
  false, none, suc, refl, [], inr, Option-cases, str_eq_iff, inl, true, arith, ap, ◌+◌, some, ◌≤◌,
  ◌⊎◌, length, ◌∷◌, Bool, ◌≢◌, List, ◌≡◌, if◌then◌else◌, String, Option, ℕ,
}
use go_task_q.Time.{Duration}
use go_task_q.Store.Create.{text_is}

-- What Redis documents of SET with NX, while no key expires: it sets a key that has no value only.
pub record IsRedis (r : Redis) : Type 0 where
  pub set_nx_wins :
      (e : r.Env) (k v : String) (d : Duration) (n : r.Node)
      → (r.set_nx e k v d n).0 ≡ some true
      → r.get k (r.set_nx e k v d n).1 ≡ some v
  pub set_nx_keeps :
      (e : r.Env) (k v w : String) (d : Duration) (n : r.Node)
      → r.get k n ≡ some w
      → r.get k (r.set_nx e k v d n).1 ≡ some w
  pub set_nx_refuses :
      (e : r.Env) (k v w : String) (d : Duration) (n : r.Node)
      → r.get k n ≡ some w
      → (r.set_nx e k v d n).0 ≢ some true

module _ (r : Redis) (l : IsRedis r) where
  pub owns : String → String → r.Node → ℕ
  owns k w n = if text_is w (r.get k n) then 1 else 0

  -- The number of nodes whose key has the value.
  pub owned : String → String → List r.Node → ℕ
  unfolding owns
  owned k w [] = 0
  owned k w (n ∷ nodes) = owns k w n + owned k w nodes

  pub owns-owner : (k w : String) (n : r.Node) → r.get k n ≡ some w → owns k w n ≡ 1
  unfolding owns
  owns-owner k w n e = rw e (rw ((str_eq_iff w w).1 refl) refl)

  pub owns-cases : (k w : String) (n : r.Node) → (owns k w n ≡ 0) ⊎ (r.get k n ≡ some w)
  unfolding owns
  owns-cases k w n = elim (Option-cases (r.get k n)) [
    | inl e ↦ inl (rw e refl)
    | inr (v, e) ↦ ground (arith, e, str_eq_iff v w)
  ]

  pub won-cases : (o : Option Bool) → (won r o ≡ 0) ⊎ ((o ≡ some true) × (won r o ≡ 1))
  won-cases none = inl refl
  won-cases (some true) = inr (refl, refl)
  won-cases (some false) = inl refl

  pub set_nx-owns :
      (e : r.Env) (k v : String) (d : Duration) (n : r.Node)
      → won r (r.set_nx e k v d n).0 ≤ owns k v (r.set_nx e k v d n).1
  set_nx-owns e k v d n = elim (won-cases (r.set_nx e k v d n).0) [
    | inl z ↦ omega (arith, z)
    | inr (t, one) ↦ omega (arith, one, owns-owner k v _ (l.set_nx_wins e k v d n t))
  ]

  pub set_nx-keeps :
      (e : r.Env) (k v w : String) (d : Duration) (n : r.Node)
      → owns k w n ≤ owns k w (r.set_nx e k v d n).1
  set_nx-keeps e k v w d n = elim (owns-cases k w n) [
    | inl z ↦ omega (arith, z)
    | inr o ↦ omega (arith, owns-owner k w n o, owns-owner k w _ (l.set_nx_keeps e k v w d n o))
  ]

  pub set_nx-shares :
      (e : r.Env) (k v w : String) (d : Duration) (n : r.Node)
      → won r (r.set_nx e k v d n).0 + owns k w n ≤ 1
  set_nx-shares e k v w d n = elim (won-cases (r.set_nx e k v d n).0) [
    | inl z ↦ elim (owns-cases k w n) [
      | inl y ↦ omega (arith, z, y)
      | inr o ↦ omega (arith, z, owns-owner k w n o)
    ]
    | inr (t, one) ↦ elim (owns-cases k w n) [
      | inl y ↦ omega (arith, one, y)
      | inr o ↦ absurd (l.set_nx_refuses e k v w d n o t)
    ]
  ]

  run_script-unchanged :
      (fate : Fate) (o : ℕ × r.Node) (n : r.Node) → o.1 ≡ n → (run_script r fate o n).1 ≡ n
  run_script-unchanged not_run o n e = refl
  run_script-unchanged reply_lost o n e = e
  run_script-unchanged replied o n e = e

  -- The script leaves the node alone if the key has another value.
  release_script-unchanged :
      (k v w : String) (n : r.Node) → r.get k n ≡ some w → w ≢ v → (release_script r k v n).1 ≡ n
  unfolding release_script
  release_script-unchanged k v w n e other =
      let differs : text_is v (r.get k n) ≡ false = rw e (ground (arith, str_eq_iff w v, other)) in
      rw differs refl

  pub release_single-keeps :
      (e : r.Env) (k v w : String) (n : r.Node)
      → w ≢ v
      → owns k w n ≤ owns k w (release_single r e k v n).1
  unfolding release_single
  release_single-keeps e k v w n other = elim (owns-cases k w n) [
    | inl z ↦ omega (arith, z)
    | inr o ↦
        let same =
          run_script-unchanged (r.script_fate e) (release_script r k v n) n
            (release_script-unchanged k v w n o other) in
        omega (arith, ap (owns k w) same)
  ]

  pub set_all-owned :
      (env : ℕ → r.Env) (i : ℕ) (k v : String) (d : Duration) (nodes : List r.Node)
      → (set_all r env i k v d nodes).0 ≤ owned k v (set_all r env i k v d nodes).1
  unfolding set_all owned
  set_all-owned env i k v d [] = omega arith
  set_all-owned env i k v d (n ∷ nodes) =
      omega (arith, set_nx-owns (env i) k v d n, set_all-owned env (i + 1) k v d nodes)

  pub set_all-keeps :
      (env : ℕ → r.Env) (i : ℕ) (k v w : String) (d : Duration) (nodes : List r.Node)
      → owned k w nodes ≤ owned k w (set_all r env i k v d nodes).1
  unfolding set_all owned
  set_all-keeps env i k v w d [] = omega arith
  set_all-keeps env i k v w d (n ∷ nodes) =
      omega (arith, set_nx-keeps (env i) k v w d n, set_all-keeps env (i + 1) k v w d nodes)

  pub set_all-shares :
      (env : ℕ → r.Env) (i : ℕ) (k v w : String) (d : Duration) (nodes : List r.Node)
      → (set_all r env i k v d nodes).0 + owned k w nodes ≤ length nodes
  unfolding set_all owned
  set_all-shares env i k v w d [] = omega arith
  set_all-shares env i k v w d (n ∷ nodes) =
      omega (arith, set_nx-shares (env i) k v w d n, set_all-shares env (i + 1) k v w d nodes)

  pub set_all-length :
      (env : ℕ → r.Env) (i : ℕ) (k v : String) (d : Duration) (nodes : List r.Node)
      → length (set_all r env i k v d nodes).1 ≡ length nodes
  unfolding set_all
  set_all-length env i k v d [] = refl
  set_all-length env i k v d (n ∷ nodes) = ap suc (set_all-length env (i + 1) k v d nodes)

  pub release_all-keeps :
      (env : ℕ → r.Env) (i : ℕ) (k v w : String) (nodes : List r.Node)
      → w ≢ v
      → owned k w nodes ≤ owned k w (release_all r env i k v nodes)
  unfolding release_all owned
  release_all-keeps env i k v w [] other = omega arith
  release_all-keeps env i k v w (n ∷ nodes) other = omega (
    arith,
    release_single-keeps (env i) k v w n other,
    release_all-keeps env (i + 1) k v w nodes other,
  )

  pub release_all-length :
      (env : ℕ → r.Env) (i : ℕ) (k v : String) (nodes : List r.Node)
      → length (release_all r env i k v nodes) ≡ length nodes
  unfolding release_all
  release_all-length env i k v [] = refl
  release_all-length env i k v (n ∷ nodes) = ap suc (release_all-length env (i + 1) k v nodes)
