-- ===== src/Examples/Webhooks.antt =====
-- internal/webhook/executor.go: a post that is redirected, to a public host and then to a private
-- one.
use go_task_q.Webhook.{v4, Url, not_public, Config, Net, Resolver, validate_addr}
use go_task_q.Webhook.Addresses.{IsAddr, IsOpen, validate_addr-IsOpen}
use go_task_q.Webhook.Requests.{
  redirected, Server, out_of_rounds, request_failed, do_from, rounds, handler,
}
use go_task_q.Webhook.Requests.Redirects.{do-terminates}
use go_task_q.Webhook.Requests.Public.{IsNet, IsPublic, handler-public}
use Prim.Native.Nat.{max}
use go_task_q.Base.{
  if_both, eq_of_some, subst, ◌^◌, ◌<◌, arith, ◌⊎◌, true, ◌↔◌, ◌≤◌, [], ◌∷◌, some, none, zero, refl,
  pos, length, suc, ℕ, false, if◌then◌else◌, All, ◌≢◌, ◌≡◌, bytes_eq, codes,
}

abbrev two_redirects : Config
two_redirects = record { allow_private_networks = false; max_redirects = pos 3 }

abbrev site : ℕ → Url
site n = record { scheme = codes "https"; has_user = false; hostname = n ∷ [] }

-- The path of a URL is left out: the host `1` is 8.8.8.8 and the host `2` is 10.0.0.1.
abbrev names : Net
names = record {
  trim_space = λ s. s;
  to_upper = λ s. s;
  equal_fold = λ s t. bytes_eq s t;
  parse_url = λ s. some (site 1);
  parse_addr = λ s. none;
}

abbrev look_up : Resolver
look_up n host = some (v4 (if bytes_eq host (1 ∷ []) then 134744072 else 167772161) ∷ [])

-- The first request is sent on to the same host, the second to the private one.
abbrev sends_on : Server
sends_on zero url = redirected 307 (site 1)
sends_on (suc n) url = redirected 307 (site 2)

abbrev IsIPv4 : ℕ → Type 0
IsIPv4 n = n < 2 ^ 32

names-IsNet : IsNet names look_up
names-IsNet = record {
  parsed = λ host a h. cc;
  resolved = λ n host addrs h.
      subst (All IsAddr) (eq_of_some h)
        (if_both IsIPv4 (bytes_eq host (1 ∷ [])) (omega arith) (omega arith), tt);
}

redirects :
    handler two_redirects names look_up sends_on (codes "u") (codes "PUT")
    ≡ ((0, site 1) ∷ (1, site 1) ∷ [], some request_failed)
unfolding handler go_task_q.Base.bytes_eq
redirects = refl

handler-public_example :
    All
      (λ (r : ℕ × Url). IsPublic two_redirects refl names look_up names-IsNet r.0 r.1)
      (handler two_redirects names look_up sends_on (codes "u") (codes "PUT")).0
handler-public_example =
    handler-public two_redirects refl names look_up names-IsNet sends_on (codes "u") (codes "PUT")

do-terminates_example :
    ((do_from two_redirects names look_up sends_on
        (rounds two_redirects names look_up sends_on)
        0
        (site 1)).1
      ≢ out_of_rounds)
    × (length
          (do_from two_redirects names look_up sends_on
            (rounds two_redirects names look_up sends_on)
            0
            (site 1)).0
        ≤ max 1 3)
do-terminates_example = do-terminates two_redirects names look_up sends_on (site 1)

-- 172.31.255.255, the last address of its block.
validate_addr-IsOpen_example :
    (validate_addr two_redirects (v4 2887778303) ≡ none)
    ↔ ((two_redirects.allow_private_networks ≡ true) ⊎ IsOpen (v4 2887778303))
validate_addr-IsOpen_example = validate_addr-IsOpen two_redirects (v4 2887778303) (omega arith)

last_private : validate_addr two_redirects (v4 2887778303) ≡ some (not_public (v4 2887778303))
unfolding validate_addr
last_private = refl

next_public : validate_addr two_redirects (v4 2887778304) ≡ none
unfolding validate_addr
next_public = refl
