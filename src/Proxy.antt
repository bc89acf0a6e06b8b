-- ===== src/Proxy.antt =====
-- internal/utils/sshproxy.go: SSHDialer with signerFromPem and defaultKnownHosts, and dialContext as the
-- steps of its two threads.
pub mod Dial
pub mod Leaks
pub mod Signer
mod Tests
use evesso.Prelude.{◌≡◌, String, Bool, true, false, Option, none, some, List, ℕ, if◌then◌else◌}
use evesso.Exec.{Error, remote, Result, ok, err, and_then}

-- golang.org/x/crypto/ssh, encoding/pem and the files. `is_passphrase_missing` is errors.As to a
-- *ssh.PassphraseMissingError.
pub record Ssh : Type 1 where
  pub Signer : Type 0
  pub HostKeys : Type 0
  pub Client : Type 0
  pub read_file : String → Result (List ℕ)
  pub home_dir : Result String
  pub known_hosts : String → Result HostKeys
  pub join : String → String → String → String
  pub is_pem : List ℕ → Bool
  pub parse_key : List ℕ → Result Signer
  pub parse_key_with : List ℕ → List ℕ → Result Signer
  pub is_passphrase_missing : Error → Bool
  pub bytes : String → List ℕ
  pub dial : String → String → String → Signer → HostKeys → Result Client

-- errors.New("pem decode failed, no key found")
abbrev pub no_key : Error
no_key = remote 0

module _ (ssh : Ssh) where
  open ssh use {
    Signer, HostKeys, Client, read_file, home_dir, known_hosts, join, is_pem, parse_key,
    parse_key_with, is_passphrase_missing, bytes, dial,
  }

  unfoldable pub signer_from_pem : List ℕ → List ℕ → Result Signer
  signer_from_pem pem_bytes password =
      if is_pem pem_bytes
      then elim (parse_key pem_bytes) [
        | ok signer ↦ ok signer
        | err e ↦ if is_passphrase_missing e then parse_key_with pem_bytes password else err e
      ]
      else err no_key

  unfoldable pub default_known_hosts : Result HostKeys
  default_known_hosts = and_then home_dir (λ home. known_hosts (join home ".ssh" "known_hosts"))

  unfoldable pub ssh_dialer : String → String → String → String → String → Result Client
  unfolding signer_from_pem default_known_hosts
  ssh_dialer network address user key key_password = and_then (read_file key) (λ pk_bytes.
      and_then (signer_from_pem pk_bytes (bytes key_password)) (λ from_pem.
        and_then default_known_hosts (λ host_keys. dial network address user from_pem host_keys)))
