-- ===== src/Lock/Exclusive.antt =====
-- internal/lock/redlock.go: two holders would need two disjoint quorums.
use go_task_q.Lock.{
  new_manager, validity, Redis, Lock, Config, Outcome, Attempt, acquired, set_all, attempt_from,
  acquire, settle,
}
use go_task_q.Retry.{Float}
use go_task_q.Base.{
  ◌/◌, ℤ, neg_part, &&-left, pos_part, ltb_ℤ, ◌∙◌, if_both, ◌<◌, leb_ℤ, zero, ◌&&◌, false, ltb,
  Bool-cases, ap, pos, suc, length, ◌≤ℤ◌, arith, refl, inr, ◌≢◌, inl, ◌≤◌, true, ◌+◌, some, ℕ, List,
  ◌≡◌, String,
}
use go_task_q.Lock.Nodes.{
  set_all-keeps, set_all-length, release_all-length, owned, set_all-shares, set_all-owned,
  release_all-keeps, IsRedis,
}

module _ (r : Redis) (l : IsRedis r) (f : Float) (c : Config f) where
  -- If the lock has been acquired, a quorum of the `m` nodes has the value.
  abbrev IsWon : String → String → ℕ → Outcome × List r.Node → Type 0
  IsWon k v m o =
      (lock : Lock) → o.0 ≡ acquired lock → (c.quorum ≤ℤ pos (owned r l k v o.1)) × (length o.1 ≡ m)

  settle-IsWon :
      (a : Attempt r) (k v : String) (m : ℕ) (again : List r.Node → Outcome × List r.Node)
      (o : ℕ × List r.Node)
      → ((nodes : List r.Node) → length nodes ≡ m → IsWon k v m (again nodes))
      → o.0 ≤ owned r l k v o.1
      → length o.1 ≡ m
      → IsWon k v m (settle f r c a k v again o)
  settle-IsWon a k v m again (n, nodes) h b e =
      elim (Bool-cases (leb_ℤ c.quorum (pos n) && ltb_ℤ (pos 0) (validity f r c a))) [
        | inl t ↦
            let enough : c.quorum ≤ℤ pos n =
              ground
                (arith, &&-left (leb_ℤ c.quorum (pos n)) (ltb_ℤ (pos 0) (validity f r c a)) t) in
            rw t (λ lock q. (omega (arith, enough, b), e))
        | inr g ↦ rw g (h _ (release_all-length r l a.delete_env 0 k v nodes ∙ e))
      ]

  attempt_from-IsWon :
      (attempts : ℕ → Attempt r) (k v : String) (n i m : ℕ) (nodes : List r.Node)
      → length nodes ≡ m
      → IsWon k v m (attempt_from f r c attempts k v n i nodes)
  unfolding attempt_from
  attempt_from-IsWon attempts k v zero i m nodes e = λ lock q. cc
  attempt_from-IsWon attempts k v (suc n) i m nodes e =
      if_both (IsWon k v m) (ltb 0 i && (attempts i).ctx_done) (λ lock q. cc)
        (settle-IsWon (attempts i) k v m (attempt_from f r c attempts k v n (i + 1))
          (set_all r (attempts i).set_env 0 k v c.ttl nodes)
          (λ nodes' e'. attempt_from-IsWon attempts k v n (i + 1) m nodes' e')
          (set_all-owned r l (attempts i).set_env 0 k v c.ttl nodes)
          (set_all-length r l (attempts i).set_env 0 k v c.ttl nodes ∙ e))

  abbrev IsLost : Outcome × List r.Node → Type 0
  IsLost o = (lock : Lock) → o.0 ≢ acquired lock

  -- `x` of the `m` nodes have another value, too many for a quorum.
  record Blocked (k w : String) (m x : ℕ) (nodes : List r.Node) : Type 0 where
    many : x ≤ owned r l k w nodes
    all_nodes : length nodes ≡ m

  settle-IsLost :
      (a : Attempt r) (k v w : String) (q m x : ℕ) (again : List r.Node → Outcome × List r.Node)
      (o : ℕ × List r.Node)
      → c.quorum ≡ pos q
      → m < q + x
      → w ≢ v
      → ((nodes : List r.Node) → Blocked k w m x nodes → IsLost (again nodes))
      → o.0 + x ≤ m
      → Blocked k w m x o.1
      → IsLost (settle f r c a k v again o)
  settle-IsLost a k v w q m x again (n, nodes) cq few other h shared b =
      let short : leb_ℤ c.quorum (pos n) ≡ false = rw cq (ground arith) in
      rw short (
        h _ (record {
          many = omega (arith, b.many, release_all-keeps r l a.delete_env 0 k v w nodes other);
          all_nodes = release_all-length r l a.delete_env 0 k v nodes ∙ b.all_nodes;
        }))

  attempt_from-IsLost :
      (attempts : ℕ → Attempt r) (k v w : String) (q m x n i : ℕ) (nodes : List r.Node)
      → c.quorum ≡ pos q
      → m < q + x
      → w ≢ v
      → Blocked k w m x nodes
      → IsLost (attempt_from f r c attempts k v n i nodes)
  unfolding attempt_from
  attempt_from-IsLost attempts k v w q m x zero i nodes cq few other b = λ lock h. cc
  attempt_from-IsLost attempts k v w q m x (suc n) i nodes cq few other b =
      let env = (attempts i).set_env in
      if_both IsLost (ltb 0 i && (attempts i).ctx_done) (λ lock h. cc)
        (settle-IsLost (attempts i) k v w q m x (attempt_from f r c attempts k v n (i + 1))
          (set_all r env 0 k v c.ttl nodes) cq few other
          (λ nodes' b'. attempt_from-IsLost attempts k v w q m x n (i + 1) nodes' cq few other b')
          (omega (arith, b.many, b.all_nodes, set_all-shares r l env 0 k v w c.ttl nodes))
          (record {
            many = omega (arith, b.many, set_all-keeps r l env 0 k v w c.ttl nodes);
            all_nodes = set_all-length r l env 0 k v c.ttl nodes ∙ b.all_nodes;
          }))

  -- With a quorum of more than half of the nodes, and while no key expires: after a client has
  -- acquired the lock, no other client, with a token of its own, acquires it on the nodes as the
  -- first has left them, however often it tries and whichever calls get lost or go unanswered.
  pub acquire_exclusive :
      (attempts attempts' : ℕ → Attempt r) (k v v' : String) (q : ℕ) (nodes : List r.Node)
      (lock lock' : Lock)
      → c.quorum ≡ pos q
      → length nodes < q + q
      → v ≢ v'
      → (acquire f r c attempts (some v) k nodes).0 ≡ acquired lock
      → (acquire f r c attempts' (some v') k (acquire f r c attempts (some v) k nodes).1).0
        ≢ acquired lock'
  unfolding acquire
  acquire_exclusive attempts attempts' k v v' q nodes lock lock' cq few other h =
      let (quorum, all) =
        attempt_from-IsWon attempts k v (pos_part c.retry_count) 0 (length nodes) nodes refl lock
          h in
      attempt_from-IsLost attempts' k v' v q (length nodes) q (pos_part c.retry_count) 0 _ cq few
        other
        (record { many = omega (arith, quorum, ap pos_part cq, ap neg_part cq); all_nodes = all })
        lock'

-- If no quorum is configured, or one that is not positive, `NewManager` sets one of which no two are
-- disjoint: more than half of the clients.
pub new_manager-majority :
    (f : Float) (hundredth : f.Num) (clients : ℕ) (c : Config f)
    → c.quorum ≤ℤ pos 0
    → (q : ℕ) × ((new_manager f hundredth clients c).quorum ≡ pos q) × (clients < q + q)
unfolding new_manager
new_manager-majority f hundredth clients c h =
    (clients / 2 + 1, rw (zero_or_less c.quorum h) refl, omega arith)
  where
    zero_or_less : (x : ℤ) → x ≤ℤ pos 0 → leb_ℤ x (pos 0) ≡ true
    zero_or_less x k = ground (arith, k)
