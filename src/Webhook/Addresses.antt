-- ===== src/Webhook/Addresses.antt =====
-- internal/webhook/executor.go: which addresses `validateAddr` lets through, as blocks of numbers.
use mathlib.Core.Bool.{false≢true}
use go_task_q.Webhook.{not_public, Addr, v4, v6, Config, is_reserved, validate_addr}
use go_task_q.Base.{
  bytes_eq_iff, [], ◌∙◌, sym, ◌⊎◌, some, none, if◌then◌else◌, inr, true, inl, ◌&&◌, Bool-cases,
  ◌==◌, arith, ◌↔◌, ◌+◌, false, ◌%◌, ◌≡◌, ◌*◌, ◌^◌, ◌/◌, ℕ, ◌≢◌, ◌<◌,
}

-- The address is a number of 32 bits, or of two halves of 64 bits.
abbrev pub IsAddr : Addr → Type 0
IsAddr (v4 n) = n < 2 ^ 32
IsAddr (v6 hi lo zone) = (hi < 2 ^ 64) × (lo < 2 ^ 64)

-- Not in 127.0.0.0/8, 10.0.0.0/8, 172.16.0.0/12, 192.168.0.0/16, 169.254.0.0/16 or 224.0.0.0/4.
abbrev pub IsOutside : ℕ → Type 0
IsOutside n =
    (n / 2 ^ 24 ≢ 127)
    × (n / 2 ^ 24 ≢ 10)
    × (n / 2 ^ 20 ≢ 172 * 16 + 1)
    × (n / 2 ^ 16 ≢ 192 * 256 + 168)
    × (n / 2 ^ 16 ≢ 169 * 256 + 254)
    × (n / 2 ^ 28 ≢ 14)

-- Not fc00::/7, fe80::/10, ff00::/8, ::1, or :: without a zone, and a mapped address not in the blocks
-- above.
abbrev pub IsOpen : Addr → Type 0
IsOpen (v4 n) = IsOutside n × (n ≢ 0)
IsOpen (v6 hi lo zone) =
    (hi / 2 ^ 57 ≢ 126)
    × (hi / 2 ^ 54 ≢ 1018)
    × (hi / 2 ^ 56 ≢ 255)
    × (hi ≡ 0 → (zone ≡ [] → lo ≢ 0) × (lo ≢ 1) × (lo / 2 ^ 32 ≡ 65535 → IsOutside (lo % 2 ^ 32)))

module _ (cfg : Config) where
  reserved-IsOpen : (a : Addr) → IsAddr a → (is_reserved cfg a ≡ false) ↔ IsOpen a
  reserved-IsOpen (v4 n) h = ground (arith, h)
  reserved-IsOpen (v6 hi lo zone) h = elim (Bool-cases (hi == 0 && lo / 2 ^ 32 == 65535)) [
    | inl m ↦ ground (arith, h, m, bytes_eq_iff zone [])
    | inr m ↦ ground (arith, h, m, bytes_eq_iff zone [])
  ]

  unreserved :
      (a : Addr)
      → (if is_reserved cfg a then some (not_public a) else none) ≡ none
      → is_reserved cfg a ≡ false
  unreserved a h = elim (Bool-cases (is_reserved cfg a)) [
    | inl r ↦ absurd (ground (arith, h, r))
    | inr r ↦ r
  ]

  -- `validateAddr` lets an address through exactly when private networks are allowed or the address
  -- is in none of the blocks of loopback, private, link-local, multicast and unspecified addresses,
  -- where an IPv4 address that is mapped to IPv6 is read as the IPv4 address, but for 0.0.0.0,
  -- and the unspecified address with a zone is let through.
  pub validate_addr-IsOpen :
      (a : Addr)
      → IsAddr a
      → (validate_addr cfg a ≡ none) ↔ ((cfg.allow_private_networks ≡ true) ⊎ IsOpen a)
  unfolding validate_addr
  validate_addr-IsOpen a h = elim (Bool-cases cfg.allow_private_networks) [
    | inl t ↦ ((λ _. inl t), λ _. rw t)
    | inr f ↦
        let blocks = reserved-IsOpen a h in
        (
          (λ none_given. inr (blocks.0 (unreserved a (rw f at none_given)))),
          λ allowed. elim allowed [
            | inl t ↦ absurd (false≢true (sym f ∙ t))
            | inr o ↦ rw (f, blocks.1 o)
          ],
        )
  ]
