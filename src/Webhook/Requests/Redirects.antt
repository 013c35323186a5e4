-- ===== src/Webhook/Requests/Redirects.antt =====
-- internal/webhook/executor.go: the client's loop ends, and every request went to a URL that was
-- validated.
use Prim.Native.Nat.{max}
use go_task_q.Webhook.{Url, Config, Net, Resolver, validate_url}
use go_task_q.Webhook.Requests.{
  on_reply, Reply, answered, redirected, no_reply, Server, out_of_rounds, Trace, sending,
  check_redirect, do_from, rounds,
}
use go_task_q.Base.{
  zero, refl, inr, Option-cases, inl, pos, leb_ℤ, suc, ◌⊎◌, Bool-cases, arith, ◌≤◌, length, ◌≢◌,
  ◌+◌, ◌<◌, pos_part, ◌≡◌, ℕ,
}

module _ (cfg : Config) (net : Net) (resolver : Resolver) (server : Server) where
  -- The requests still to come after `n` of them, and an ending that is one.
  abbrev Ends : ℕ → Trace → Type 0
  Ends n (sent, ending) =
      (ending ≢ out_of_rounds)
      × ((length sent ≤ 1) ⊎ (length sent + n ≤ pos_part cfg.max_redirects))

  abbrev Rest : ℕ → Trace → Type 0
  Rest n (sent, ending) =
      (ending ≢ out_of_rounds)
      × ((length sent ≡ 0) ⊎ (length sent + n ≤ pos_part cfg.max_redirects))

  Rest-sending : (n : ℕ) (url : Url) (t : Trace) → Rest (n + 1) t → Ends n (sending (n, url) t)
  Rest-sending n url (sent, ending) (ends, bound) = (ends, ground (arith, bound))

  Ends-Rest : (n : ℕ) (t : Trace) → n < pos_part cfg.max_redirects → Ends n t → Rest n t
  Ends-Rest n (sent, ending) h (ends, bound) = (ends, ground (arith, bound, h))

  check_redirect-Rest :
      (n s : ℕ) (url : Url) (follow : Trace)
      → (n < pos_part cfg.max_redirects → Ends n follow)
      → Rest n (check_redirect cfg net resolver server n s url follow)
  check_redirect-Rest n s url follow h = elim (Bool-cases (leb_ℤ cfg.max_redirects (pos n))) [
    | inl t ↦ rw t ((λ e. cc), inl refl)
    | inr f ↦ elim (Option-cases (validate_url cfg net resolver n url)) [
      | inl v ↦ rw (f, v) (Ends-Rest n follow (ground (arith, f)) (h (ground (arith, f))))
      | inr (e, v) ↦ rw (f, v) ((λ e. cc), inl refl)
    ]
  ]

  on_reply-Rest :
      (n : ℕ) (reply : Reply) (follow : Url → Trace)
      → ((next : Url) → n + 1 < pos_part cfg.max_redirects → Ends (n + 1) (follow next))
      → Rest (n + 1) (on_reply cfg net resolver server n reply follow)
  on_reply-Rest n (answered s) follow h = ((λ e. cc), inl refl)
  on_reply-Rest n (redirected s next) follow h =
      check_redirect-Rest (n + 1) s next (follow next) (h next)
  on_reply-Rest n no_reply follow h = ((λ e. cc), inl refl)

  do-Ends :
      (k n : ℕ) (url : Url)
      → pos_part cfg.max_redirects ≤ n + k
      → Ends n (do_from cfg net resolver server (suc k) n url)
  unfolding do_from
  do-Ends zero n url h = Rest-sending n url _ (
      on_reply-Rest n (server n url) (do_from cfg net resolver server zero (n + 1))
        (λ next more. absurd (omega (arith, h, more))))
  do-Ends (suc k) n url h = Rest-sending n url _ (
      on_reply-Rest n (server n url) (do_from cfg net resolver server (suc k) (n + 1))
        (λ next more. do-Ends k (n + 1) next (omega (arith, h))))

  -- The client's loop ends, whatever the servers answer: within the rounds that `handler` gives it,
  -- after one request or after at most as many as `MaxRedirects`, the first one included.
  pub do-terminates :
      (url : Url)
      → ((do_from cfg net resolver server (rounds cfg net resolver server) 0 url).1 ≢ out_of_rounds)
        × (length (do_from cfg net resolver server (rounds cfg net resolver server) 0 url).0
            ≤ max 1 (pos_part cfg.max_redirects))
  do-terminates url =
      let (ends, bound) = do-Ends (pos_part cfg.max_redirects) 0 url (omega arith) in
      (ends, ground (arith, bound))
