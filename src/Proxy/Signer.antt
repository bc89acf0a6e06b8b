-- ===== src/Proxy/Signer.antt =====
-- Which keys signerFromPem accepts.
use evesso.Prelude.{◌≡◌, refl, ◌↔◌, ◌⊎◌, inl, inr, ℕ, List, true, Bool-cases}
use evesso.Exec.{Error, Result-cases, ok, err}
use evesso.Proxy.{Ssh, signer_from_pem}

-- signerFromPem answers a signer exactly if the file is PEM, and the key parses without a passphrase, or
-- parses with the one that is given and failed without only for lack of it.
pub signer_from_pem_iff :
    (ssh : Ssh) (pem password : List ℕ) (signer : ssh.Signer)
    → (signer_from_pem ssh pem password ≡ ok signer) ↔ (
        (ssh.is_pem pem ≡ true)
        × ((ssh.parse_key pem ≡ ok signer)
            ⊎ ((e : Error) × (ssh.parse_key pem ≡ err e)
                × (ssh.is_passphrase_missing e ≡ true)
                × (ssh.parse_key_with pem password ≡ ok signer))))
unfolding signer_from_pem
signer_from_pem_iff ssh pem password signer = (
  λ h. elim (Bool-cases (ssh.is_pem pem)) [
    | inr bad ↦ cc (rw bad at h)
    | inl good ↦ (
      good,
      elim (Result-cases (ssh.parse_key pem)) [
        | inl (key, e) ↦ inl (cc (e, rw (good, e) at h))
        | inr (x, e) ↦ elim (Bool-cases (ssh.is_passphrase_missing x)) [
          | inl missing ↦ inr (x, e, missing, rw (good, e, missing) at h)
          | inr other ↦ cc (rw (good, e, other) at h)
        ]
      ],
    )
  ],
  λ (good, why). elim why [
    | inl plain ↦ rw (good, plain) refl
    | inr (x, e, missing, with) ↦ rw (good, e, missing) with
  ],
)
