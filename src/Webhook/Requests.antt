-- ===== src/Webhook/Requests.antt =====
-- internal/webhook/executor.go: `Handler` with the client that follows redirects, and the requests
-- that it sends. Building the request cannot fail once the URL and the method have passed.
pub mod Redirects
pub mod Public
use go_task_q.Webhook.{Url, UrlError, Config, Net, Resolver, validate_url}
use go_task_q.Base.{
  true, ltb, pos, zero, pos_part, none, some, ◌+◌, ◌||◌, ◌&&◌, leb_ℤ, not, bytes_eq, suc, ◌==◌,
  codes, if◌then◌else◌, leb, [], false, ◌∷◌, List, Option, ℕ, Bool, Bytes,
}

-- What the server at a URL answers: a final status, a redirect, or nothing.
pub data Reply : Type 0 where
  answered : ℕ → Reply
  redirected : ℕ → Url → Reply
  no_reply : Reply

-- The answer to the request after so many.
abbrev pub Server : Type 0
Server = ℕ → Url → Reply

pub data Ending : Type 0 where
  response : ℕ → Ending
  unsafe_redirect : UrlError → Ending
  no_connection out_of_rounds : Ending

-- The requests, each with the number of those before it, and how the client's loop ends.
abbrev pub Trace : Type 0
Trace = List (ℕ × Url) × Ending

abbrev pub sending : ℕ × Url → Trace → Trace
sending request (sent, ending) = (request ∷ sent, ending)

pub data HandlerError : Type 0 where
  url_required invalid_url unsupported_method request_failed : HandlerError
  unsafe_url : UrlError → HandlerError
  status : ℕ → HandlerError

abbrev pub is_success : ℕ → Bool
is_success s = leb 200 s && ltb s 300

abbrev pub is_temporary : ℕ → Bool
is_temporary s = s == 408 || s == 429 || leb 500 s

-- `errors.Is(err, retry.ErrNoRetry)`.
abbrev pub permanent : HandlerError → Bool
permanent request_failed = false
permanent (status s) = not (is_temporary s)
permanent _ = true

abbrev pub error_of : Ending → Option HandlerError
error_of (response s) = if is_success s then none else some (status s)
error_of _ = some request_failed

abbrev pub method_or_post : Bytes → Bytes
method_or_post [] = codes "POST"
method_or_post (c ∷ s) = c ∷ s

abbrev pub supported : Bytes → Bool
supported method =
    bytes_eq method (codes "POST")
    || bytes_eq method (codes "PUT")
    || bytes_eq method (codes "PATCH")

module _ (cfg : Config) (net : Net) (resolver : Resolver) (server : Server) where
  -- `CheckRedirect` before the request number `n`, where `len(via)` is `n`; the client then goes on
  -- with `follow`.
  abbrev pub check_redirect : ℕ → ℕ → Url → Trace → Trace
  check_redirect n s url follow =
      if leb_ℤ cfg.max_redirects (pos n)
      then ([], response s)
      else elim (validate_url cfg net resolver n url) [
        | none ↦ follow
        | some e ↦ ([], unsafe_redirect e)
      ]

  -- What the client does after the answer to the request number `n`.
  abbrev pub on_reply : ℕ → Reply → (Url → Trace) → Trace
  on_reply n (answered s) follow = ([], response s)
  on_reply n (redirected s next) follow = check_redirect (n + 1) s next (follow next)
  on_reply n no_reply follow = ([], no_connection)

  -- The loop of `Client.Do`, which sends the request number `n`, in at most so many rounds.
  unfoldable pub do_from : ℕ → ℕ → Url → Trace
  unfolding validate_url
  do_from zero n url = ([], out_of_rounds)
  do_from (suc k) n url =
      let follow = do_from k (n + 1) in sending (n, url) (on_reply n (server n url) follow)

  -- As many rounds as redirects, and one more.
  abbrev pub rounds : ℕ
  rounds = suc (pos_part cfg.max_redirects)

  abbrev pub post : Url → List (ℕ × Url) × Option HandlerError
  post url = let (sent, ending) = do_from rounds 0 url in (sent, error_of ending)

  abbrev pub post_unless : Option UrlError → Bytes → Url → List (ℕ × Url) × Option HandlerError
  post_unless (some e) method url = ([], some (unsafe_url e))
  post_unless none method url =
      if supported (method_or_post (net.to_upper (net.trim_space method)))
      then post url
      else ([], some unsupported_method)

  abbrev pub checked_post : Bytes → Option Url → List (ℕ × Url) × Option HandlerError
  checked_post method none = ([], some invalid_url)
  checked_post method (some url) = post_unless (validate_url cfg net resolver 0 url) method url

  -- The two values of the metadata; a key that is missing reads as the empty string.
  unfoldable pub handler : Bytes → Bytes → List (ℕ × Url) × Option HandlerError
  unfolding do_from
  handler target method =
      if bytes_eq (net.trim_space target) []
      then ([], some url_required)
      else checked_post method (net.parse_url (net.trim_space target))
