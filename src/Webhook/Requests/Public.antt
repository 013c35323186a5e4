-- ===== src/Webhook/Requests/Public.antt =====
-- internal/webhook/executor.go: where the requests go when private networks are not allowed.
use mathlib.Core.Bool.{false≢true}
use go_task_q.Webhook.{
  no_host, is_localhost, Addr, Url, UrlError, Config, Net, Resolver, validate_addr, validate_addrs,
  validate_host, validate_url, orelse,
}
use go_task_q.Webhook.Addresses.{IsAddr, IsOpen, validate_addr-IsOpen}
use go_task_q.Webhook.Requests.{
  Reply, answered, redirected, no_reply, Server, Trace, HandlerError, on_reply, check_redirect,
  do_from, rounds, checked_post, post_unless, handler, supported, method_or_post,
}
use go_task_q.Base.{
  pos, zero, ◌+◌, leb_ℤ, Option-cases, if_both, suc, arith, bytes_eq_iff, inr, ◌∙◌, Bool-cases,
  true, ◌&&◌, ◌⊎◌, sym, [], codes, bytes_eq, if◌then◌else◌, refl, inl, ◌≢◌, Bool, not, ℕ, ◌∷◌, All,
  none, false, List, some, ◌≡◌, Option, Bytes,
}

-- The addresses that stand for the host: itself, or what the resolver says.
abbrev pub addresses_of : Option Addr → Option (List Addr) → Option (List Addr)
addresses_of (some addr) resolved = some (addr ∷ [])
addresses_of none resolved = resolved

-- What is parsed and resolved are addresses.
pub record IsNet (net : Net) (resolver : Resolver) : Type 0 where
  pub parsed : (host : Bytes) (a : Addr) → net.parse_addr host ≡ some a → IsAddr a
  pub resolved :
      (n : ℕ) (host : Bytes) (addrs : List Addr) → resolver n host ≡ some addrs → All IsAddr addrs

module _ (cfg : Config) (private_off : cfg.allow_private_networks ≡ false) where
  validate_addr-public : (a : Addr) → IsAddr a → validate_addr cfg a ≡ none → IsOpen a
  validate_addr-public a w h = elim ((validate_addr-IsOpen cfg a w).0 h) [
    | inl t ↦ absurd (false≢true (sym private_off ∙ t))
    | inr o ↦ o
  ]

  orelse-none : (a b : Option UrlError) → orelse cfg a b ≡ none → (a ≡ none) × (b ≡ none)
  orelse-none none b h = (refl, h)
  orelse-none (some e) b h = cc

  validate_addrs-public :
      (addrs : List Addr) → All IsAddr addrs → validate_addrs cfg addrs ≡ none → All IsOpen addrs
  unfolding validate_addrs
  validate_addrs-public [] w h = tt
  validate_addrs-public (a ∷ addrs) (w, ws) h =
      let (one, others) = orelse-none (validate_addr cfg a) (validate_addrs cfg addrs) h in
      (validate_addr-public a w one, validate_addrs-public addrs ws others)

  validate_host-public :
      (parsed : Option Addr) (resolved : Option (List Addr))
      → ((a : Addr) → parsed ≡ some a → IsAddr a)
      → ((addrs : List Addr) → resolved ≡ some addrs → All IsAddr addrs)
      → validate_host cfg parsed resolved ≡ none
      → (addrs : List Addr) × (addresses_of parsed resolved ≡ some addrs)
        × (addrs ≢ [])
        × All IsOpen addrs
  validate_host-public (some a) resolved w ws h =
      (a ∷ [], refl, (λ e. cc), (validate_addr-public a (w a refl) h, tt))
  validate_host-public none none w ws h = cc
  validate_host-public none (some []) w ws h = cc
  validate_host-public none (some (a ∷ addrs)) w ws h =
      (a ∷ addrs, refl, (λ e. cc), validate_addrs-public (a ∷ addrs) (ws (a ∷ addrs) refl) h)

  module _ (net : Net) (resolver : Resolver) (known : IsNet net resolver) where
    -- The destination of the request after so many others.
    pub record IsPublic (n : ℕ) (url : Url) : Type 0 where
      pub scheme : (url.scheme ≡ codes "http") ⊎ (url.scheme ≡ codes "https")
      pub no_user : url.has_user ≡ false
      pub named : url.hostname ≢ []
      pub addrs : List Addr
      pub found : addresses_of (net.parse_addr url.hostname) (resolver n url.hostname) ≡ some addrs
      pub reached : addrs ≢ []
      pub public : All IsOpen addrs

    refused :
        (b : Bool) (e : UrlError) (rest : Option UrlError)
        → (if b then some e else rest) ≡ none
        → (b ≡ false) × (rest ≡ none)
    refused true e rest h = cc
    refused false e rest h = (refl, h)

    scheme_of :
        (s : Bytes)
        → (not (bytes_eq s (codes "http")) && not (bytes_eq s (codes "https"))) ≡ false
        → (s ≡ codes "http") ⊎ (s ≡ codes "https")
    scheme_of s h = elim (Bool-cases (bytes_eq s (codes "http"))) [
      | inl t ↦ inl ((bytes_eq_iff s _).0 t)
      | inr f ↦ inr ((bytes_eq_iff s _).0 (ground (arith, h, f)))
    ]

    validate_url-IsPublic :
        (n : ℕ) (url : Url) → validate_url cfg net resolver n url ≡ none → IsPublic n url
    unfolding validate_url
    validate_url-IsPublic n url h =
        let (s, h1) = refused _ _ _ h in
        let (u, h2) = refused _ _ _ h1 in
        let (named, h3) = refused (bytes_eq url.hostname []) no_host _ h2 in
        let (_, h4) = refused (net.equal_fold url.hostname (codes "localhost")) is_localhost _ h3 in
        let (addrs, found, reached, public) =
          validate_host-public (net.parse_addr url.hostname) (resolver n url.hostname)
            (known.parsed url.hostname) (known.resolved n url.hostname) h4 in
        record {
          scheme = scheme_of url.scheme s;
          no_user = u;
          named = λ e. false≢true (sym named ∙ (bytes_eq_iff url.hostname []).1 e);
          addrs = addrs;
          found = found;
          reached = reached;
          public = public;
        }

    module _ (server : Server) where
      abbrev AllPublic : List (ℕ × Url) → Type 0
      AllPublic sent = All (λ (r : ℕ × Url). IsPublic r.0 r.1) sent

      check_redirect-public :
          (n s : ℕ) (url : Url) (follow : Trace)
          → (IsPublic n url → AllPublic follow.0)
          → AllPublic (check_redirect cfg net resolver server n s url follow).0
      check_redirect-public n s url follow h = elim (Bool-cases (leb_ℤ cfg.max_redirects (pos n))) [
        | inl t ↦ rw t tt
        | inr f ↦ elim (Option-cases (validate_url cfg net resolver n url)) [
          | inl v ↦ rw (f, v) (h (validate_url-IsPublic n url v))
          | inr (e, v) ↦ rw (f, v) tt
        ]
      ]

      on_reply-public :
          (n : ℕ) (reply : Reply) (follow : Url → Trace)
          → ((next : Url) → IsPublic (n + 1) next → AllPublic (follow next).0)
          → AllPublic (on_reply cfg net resolver server n reply follow).0
      on_reply-public n (answered s) follow h = tt
      on_reply-public n (redirected s next) follow h =
          check_redirect-public (n + 1) s next (follow next) (h next)
      on_reply-public n no_reply follow h = tt

      do-public :
          (k n : ℕ) (url : Url)
          → IsPublic n url
          → AllPublic (do_from cfg net resolver server k n url).0
      unfolding do_from
      do-public zero n url p = tt
      do-public (suc k) n url p = (
        p,
        on_reply-public n (server n url) (do_from cfg net resolver server k (n + 1))
            (do-public k (n + 1)),
      )

      post_unless-public :
          (refusal : Option UrlError) (method : Bytes) (url : Url)
          → (refusal ≡ none → IsPublic 0 url)
          → AllPublic (post_unless cfg net resolver server refusal method url).0
      post_unless-public (some e) method url h = tt
      post_unless-public none method url h =
          if_both (λ (t : List (ℕ × Url) × Option HandlerError). AllPublic t.0)
            (supported (method_or_post (net.to_upper (net.trim_space method))))
            (do-public (rounds cfg net resolver server) 0 url (h refl)) tt

      checked_post-public :
          (method : Bytes) (parsed : Option Url)
          → AllPublic (checked_post cfg net resolver server method parsed).0
      checked_post-public method none = tt
      checked_post-public method (some url) =
          post_unless-public (validate_url cfg net resolver 0 url) method url
            (validate_url-IsPublic 0 url)

      -- When private networks are not allowed, every request that `Handler` sends, the ones after a
      -- redirect included, goes to a URL of http or https without user information, whose host is
      -- an address or a name that resolved to at least one, all of them in none of the blocks of
      -- loopback, private, link-local, multicast and unspecified addresses, an unspecified address
      -- with a zone and ::ffff:0.0.0.0 excepted.
      pub handler-public :
          (target method : Bytes) → AllPublic (handler cfg net resolver server target method).0
      unfolding handler
      handler-public target method =
          if_both (λ (t : List (ℕ × Url) × Option HandlerError). AllPublic t.0)
            (bytes_eq (net.trim_space target) []) tt
            (checked_post-public method (net.parse_url (net.trim_space target)))
