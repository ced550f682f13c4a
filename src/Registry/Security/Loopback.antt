-- ===== src/Registry/Security/Loopback.antt =====
-- Which hosts count as loopback.
use pafio_nightly.Prelude.{
  ℕ, suc, ◌+◌, ◌≤◌, true, false, List, [], ◌∷◌, Text, text, text_eq, text_eq_iff, all, split_lines,
  arith, ◌≡◌, refl, ◌⊎◌, ◌↔◌, inl, inr, length, Bool-cases, ◌≢◌,
}
use pafio_nightly.Lexicon.{is_digit}
use pafio_nightly.Registry.Security.{is_loopback_host, read_octets, stoi, count_byte}

-- one octet of a dotted address: one to three digits, at most 255
abbrev pub IsOctet : Text → Type 0
IsOctet s = (s ≢ []) × (length s ≤ 3) × (all is_digit s ≡ true) × (stoi s ≤ 255)

-- a dotted IPv4 address in 127.0.0.0/8, by its four segments
abbrev pub IsLoopbackQuad : List Text → Type 0
IsLoopbackQuad (a ∷ b ∷ c ∷ d ∷ []) = IsOctet a × IsOctet b × IsOctet c × IsOctet d × (stoi a ≡ 127)
IsLoopbackQuad _ = ⊥

nil_test : (s : Text) → text_eq s [] ≡ false → s ≢ []
nil_test s h e = cc (rw e at h, (text_eq_iff [] []).1 refl)

not_nil_test : (s : Text) → s ≢ [] → text_eq s [] ≡ false
not_nil_test s h = elim (Bool-cases (text_eq s [])) [
  | inl e ↦ absurd (h ((text_eq_iff s []).0 e))
  | inr e ↦ e
]

-- one round of the loop that goes on
read_octets_step :
    (n : ℕ) (s : Text) (rest : List Text)
    → read_octets n (s ∷ rest) ≡ true
    → (text_eq s [] ≡ false)
      × (length s ≤ 3)
      × (all is_digit s ≡ true)
      × (stoi s ≤ 255)
      × (suc n ≤ 4)
      × (n ≡ 0 → stoi s ≡ 127)
      × (read_octets (n + 1) rest ≡ true)
unfolding read_octets
read_octets_step n s rest h = ground arith

step_value : (n : ℕ) (s : Text) (rest : List Text) → read_octets n (s ∷ rest) ≡ true → IsOctet s
step_value n s rest h = let t = read_octets_step n s rest h in (nil_test s t.0, t.1, t.2, t.3)

read_octets_of :
    (n : ℕ) (s : Text) (rest : List Text)
    → IsOctet s
    → suc n ≤ 4
    → (n ≡ 0 → stoi s ≡ 127)
    → read_octets (n + 1) rest ≡ true
    → read_octets n (s ∷ rest) ≡ true
unfolding read_octets
read_octets_of n s rest o l f h = ground (arith, not_nil_test s o.0)

read_octets_end : (n : ℕ) → read_octets n [] ≡ true → n ≡ 4
unfolding read_octets
read_octets_end n h = ground arith

-- the loop accepts four octets, the first of them 127
quad_of_read : (l : List Text) → read_octets 0 l ≡ true → IsLoopbackQuad l
unfolding read_octets
quad_of_read [] h = cc
quad_of_read (a ∷ []) h = absurd (omega (arith, read_octets_end 1 (read_octets_step 0 a [] h).6))
quad_of_read (a ∷ b ∷ []) h =
    let h1 = (read_octets_step 0 a (b ∷ []) h).6 in
    absurd (omega (arith, read_octets_end 2 (read_octets_step 1 b [] h1).6))
quad_of_read (a ∷ b ∷ c ∷ []) h =
    let h1 = (read_octets_step 0 a (b ∷ c ∷ []) h).6 in
    let h2 = (read_octets_step 1 b (c ∷ []) h1).6 in
    absurd (omega (arith, read_octets_end 3 (read_octets_step 2 c [] h2).6))
quad_of_read (a ∷ b ∷ c ∷ d ∷ []) h =
    let t = read_octets_step 0 a (b ∷ c ∷ d ∷ []) h in
    let h2 = (read_octets_step 1 b (c ∷ d ∷ []) t.6).6 in
    let h3 = (read_octets_step 2 c (d ∷ []) h2).6 in
    (
      step_value 0 a (b ∷ c ∷ d ∷ []) h,
      step_value 1 b (c ∷ d ∷ []) t.6,
      step_value 2 c (d ∷ []) h2,
      step_value 3 d [] h3,
      t.5 refl,
    )
quad_of_read (a ∷ b ∷ c ∷ d ∷ e ∷ rest) h =
    let h1 = (read_octets_step 0 a (b ∷ c ∷ d ∷ e ∷ rest) h).6 in
    let h2 = (read_octets_step 1 b (c ∷ d ∷ e ∷ rest) h1).6 in
    let h3 = (read_octets_step 2 c (d ∷ e ∷ rest) h2).6 in
    let h4 = (read_octets_step 3 d (e ∷ rest) h3).6 in
    absurd (omega (arith, (read_octets_step 4 e rest h4).4))

read_of_quad : (l : List Text) → IsLoopbackQuad l → read_octets 0 l ≡ true
read_of_quad (a ∷ b ∷ c ∷ d ∷ []) q =
    read_octets_of 0 a (b ∷ c ∷ d ∷ []) q.0 (omega arith) (λ _. q.4)
      (read_octets_of 1 b (c ∷ d ∷ []) q.1 (omega arith) (λ e. absurd (omega arith))
        (read_octets_of 2 c (d ∷ []) q.2 (omega arith) (λ e. absurd (omega arith))
          (read_octets_of 3 d [] q.3 (omega arith) (λ e. absurd (omega arith))
            (unfold read_octets in refl))))
read_of_quad [] q = elim q [ ]
read_of_quad (a ∷ []) q = elim q [ ]
read_of_quad (a ∷ b ∷ []) q = elim q [ ]
read_of_quad (a ∷ b ∷ c ∷ []) q = elim q [ ]
read_of_quad (a ∷ b ∷ c ∷ d ∷ e ∷ r) q = elim q [ ]

abbrev Tests : Text → Type 0
Tests host =
    (text_eq host (text "localhost") ≡ true)
    ⊎ (text_eq host (text "localhost.") ≡ true)
    ⊎ ((count_byte b'.' host ≡ 3) × (read_octets 0 (split_lines b'.' host) ≡ true))

host_cases : (host : Text) → is_loopback_host host ≡ true → Tests host
unfolding is_loopback_host
host_cases host h = ground arith

host_accepts : (host : Text) → Tests host → is_loopback_host host ≡ true
unfolding is_loopback_host
host_accepts host t = ground arith

-- the hosts that the plaintext flag is meant for
abbrev pub IsLoopbackHost : Text → Type 0
IsLoopbackHost host =
    (host ≡ text "localhost")
    ⊎ (host ≡ text "localhost.")
    ⊎ ((count_byte b'.' host ≡ 3) × IsLoopbackQuad (split_lines b'.' host))

-- A host counts as loopback exactly when it is `localhost`, with or without a dot behind it, or has
-- three dots and four segments that are octets, the first of them 127. A name that only begins
-- with `127.` does not.
pub is_loopback_host_lem : (host : Text) → (is_loopback_host host ≡ true) ↔ IsLoopbackHost host
is_loopback_host_lem host = (sound, complete)
  where
    sound : is_loopback_host host ≡ true → IsLoopbackHost host
    sound h =
        let t = host_cases host h in
        elim t [
          | inl e ↦ inl ((text_eq_iff host _).0 e)
          | inr (inl e) ↦ inr (inl ((text_eq_iff host _).0 e))
          | inr (inr (n, o)) ↦ inr (inr (n, quad_of_read _ o))
        ]

    complete : IsLoopbackHost host → is_loopback_host host ≡ true
    complete (inl e) = host_accepts host (inl ((text_eq_iff host _).1 e))
    complete (inr (inl e)) = host_accepts host (inr (inl ((text_eq_iff host _).1 e)))
    complete (inr (inr (n, q))) = host_accepts host (inr (inr (n, read_of_quad _ q)))
