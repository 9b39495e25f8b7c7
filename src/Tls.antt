-- ===== src/Tls.antt =====
-- pkg/internal/webhook/tls/tls.go: the serving certificate of the webhook. Times are nanoseconds.
pub mod Renewal
pub mod Update
pub mod System
use cert_manager_approver_po.Common.{
  ℕ, suc, ◌+◌, ◌/◌, ◌^◌, ℤ, pos, negsuc, lt_ℤ, difference, ◌+ℤ◌, ◌-ℤ◌, String, Bool, true, false,
  Option, none, some, List, [], ◌∷◌, Outcome, ok, err, panic, Error, ◌>>=◌, if◌then◌else◌, ◌+++◌,
}

-- The range of a `time.Duration`.
abbrev pub max_duration : ℤ
max_duration = pos 9_223_372_036_854_775_807

abbrev pub min_duration : ℤ
min_duration = negsuc 9_223_372_036_854_775_807

-- `a.Sub(b)`, which stops at the ends of the range.
unfoldable pub time_sub : ℤ → ℤ → ℤ
time_sub a b =
    if lt_ℤ max_duration (a -ℤ b)
    then max_duration
    else if lt_ℤ (a -ℤ b) min_duration
    then min_duration
    else a -ℤ b

-- `d / -3`, which rounds towards 0.
unfoldable pub divide_by_minus_three : ℤ → ℤ
divide_by_minus_three (pos n) = difference 0 (n / 3)
divide_by_minus_three (negsuc n) = pos (suc n / 3)

-- `cert.NotAfter.Add(certDuration / -3)`, from `NotBefore` and `NotAfter`.
unfoldable pub renew_moment : ℤ → ℤ → ℤ
renew_moment not_before not_after =
    not_after +ℤ divide_by_minus_three (time_sub not_after not_before)

-- The two files in the directory of the certificates.
pub record Files : Type 0 where
  pub crt : List ℕ
  pub key : List ℕ

-- `TLS`: the files, and the buffer of `nextRenewCh`, which holds one moment at most.
pub record Provider : Type 0 where
  pub files : Files
  pub next_renew : Option ℤ

-- What other code answers while one certificate is made: `pki`, the authority of cert-manager, and the
-- file system. A write that fails leaves `torn` of the old and the new content.
pub record Authority : Type 1 where
  pub Key : Type 0
  pub Certificate : Type 0
  pub generate_key : Outcome Key
  pub sign : Key → String → Outcome Certificate
  pub encode_key : Key → Outcome (List ℕ)
  pub encode_certificate : Certificate → Outcome (List ℕ)
  pub not_before : Certificate → ℤ
  pub not_after : Certificate → ℤ
  pub write_file : String → List ℕ → Outcome (Unit {0})
  pub torn : List ℕ → List ℕ → List ℕ

-- How a regeneration ends: with a nil error, with an error, never, as it waits with the lock held for
-- room in the buffer to send a moment, or in a panic.
pub data Regenerated : Type 0 where
  finished : Provider → Regenerated
  failed : Error → Provider → Regenerated
  blocked : ℤ → Provider → Regenerated
  crashed : Regenerated

-- `nextRenew <- …`
unfoldable pub send_moment : ℤ → Files → Option ℤ → Regenerated
send_moment moment files none = finished (record { files = files; next_renew = some moment })
send_moment moment files (some waiting) =
    blocked moment (record { files = files; next_renew = some waiting })

-- The one DNS name of the template.
abbrev pub dns_name : String → String → String
dns_name service_name secret_namespace = service_name +++ "." +++ secret_namespace +++ ".svc"

module _ (a : Authority) where
  -- `os.WriteFile` of "tls.key", and the send, with the certificate already written.
  unfoldable pub write_key : ℤ → List ℕ → Provider → Outcome (Unit {0}) → Regenerated
  write_key moment key_data t (ok _) =
      send_moment moment (record { crt = t.files.crt; key = key_data }) t.next_renew
  write_key moment key_data t (err e) =
      failed e
        (record t { files = record { crt = t.files.crt; key = a.torn t.files.key key_data } })
  write_key moment key_data t panic = crashed

  -- `os.WriteFile` of "tls.crt", and what follows.
  unfoldable pub write_certificate :
      ℤ → List ℕ → List ℕ → Provider → Outcome (Unit {0}) → Regenerated
  write_certificate moment key_data cert_data t (ok _) =
      write_key moment key_data (record t { files = record { crt = cert_data; key = t.files.key } })
        (a.write_file "tls.key" key_data)
  write_certificate moment key_data cert_data t (err e) =
      failed e
        (record t { files = record { crt = a.torn t.files.crt cert_data; key = t.files.key } })
  write_certificate moment key_data cert_data t panic = crashed

  -- The key and the certificate as the files hold them.
  unfoldable pub encode_both : a.Key → a.Certificate → Outcome (List ℕ × List ℕ)
  encode_both pk cert = do
    key_data ← a.encode_key pk
    cert_data ← a.encode_certificate cert
    ok (key_data, cert_data)

  unfoldable pub write_both : ℤ → Outcome (List ℕ × List ℕ) → Provider → Regenerated
  write_both moment (ok (key_data, cert_data)) t =
      write_certificate moment key_data cert_data t (a.write_file "tls.crt" cert_data)
  write_both moment (err e) t = failed e t
  write_both moment panic t = crashed

  -- `updateCertificate`
  unfoldable pub update_certificate : a.Key → a.Certificate → Provider → Regenerated
  update_certificate pk cert t =
      write_both (renew_moment (a.not_before cert) (a.not_after cert)) (encode_both pk cert) t

  unfoldable pub signed_pair : String → Outcome (a.Key × a.Certificate)
  signed_pair name = do pk ← a.generate_key; cert ← a.sign pk name; ok (pk, cert)

  unfoldable pub update_with : Outcome (a.Key × a.Certificate) → Provider → Regenerated
  update_with (ok (pk, cert)) t = update_certificate pk cert t
  update_with (err e) t = failed e t
  update_with panic t = crashed

  -- `regenerateCertificate`
  unfoldable pub regenerate_certificate : String → String → Provider → Regenerated
  regenerate_certificate service_name secret_namespace t =
      update_with (signed_pair (dns_name service_name secret_namespace)) t

-- What the channel of the authority gives to a `select` that does not wait: nothing yet, an error that
-- may be nil, or that it is closed.
pub data Message : Type 0 where
  nothing closed : Message
  stopped_with : Option Error → Message

-- What `New` comes to: a provider, an error, still polling after the calls made so far, waiting for ever,
-- or a panic of other code.
pub data Bootstrap : Type 0 where
  created : Provider → Bootstrap
  given_up : Error → Bootstrap
  polling hung aborted : Bootstrap

-- What one call of the condition comes to.
pub data Attempt : Type 0 where
  retry : Provider → Attempt
  settled : Bootstrap → Attempt

unfoldable pub after_regenerate : Regenerated → Attempt
after_regenerate (finished t) = settled (created t)
after_regenerate (failed e t) = retry t
after_regenerate (blocked moment t) = settled hung
after_regenerate crashed = settled aborted

abbrev pub context_canceled : Error
context_canceled = Error.reported "context canceled"

-- `is_wait_timeout` is `errors.Is(err, wait.ErrWaitTimeout)`.
module _ (is_wait_timeout : Error → Bool) (service_name secret_namespace : String) where
  unfoldable pub attempt : Message → Authority → Provider → Attempt
  attempt nothing a t = after_regenerate (regenerate_certificate a service_name secret_namespace t)
  attempt (stopped_with none) a t =
      after_regenerate (regenerate_certificate a service_name secret_namespace t)
  attempt (stopped_with (some e)) a t =
      settled (given_up (Error.wrapped "failed to run certificate authority" e))
  attempt closed a t = settled (given_up context_canceled)

  -- What `New` makes of the error of the polling.
  unfoldable pub after_polling : Bootstrap → Bootstrap
  after_polling (created t) = created t
  after_polling (given_up e) = given_up (if is_wait_timeout e then context_canceled else e)
  after_polling polling = polling
  after_polling hung = hung
  after_polling aborted = aborted

  -- What follows one call of the condition.
  unfoldable pub after_call : (Provider → Bootstrap) → Attempt → Bootstrap
  after_call rest (retry t) = rest t
  after_call rest (settled b) = after_polling b

  -- The polling in `New`: the calls of the condition, until one ends it. After the last of the list the
  -- context is cancelled, or else the polling goes on.
  unfoldable pub poll_new : Bool → List (Message × Authority) → Provider → Bootstrap
  poll_new cancelled [] t = if cancelled then given_up context_canceled else polling
  poll_new cancelled ((message, a) ∷ calls) t =
      after_call (λ t'. poll_new cancelled calls t') (attempt message a t)
