-- ===== src/Tests/Tls.antt =====
-- The serving certificate of pkg/internal/webhook/tls/tls.go at small inputs.
use mathlib.Core.Path.{subst}
use cert_manager_approver_po.Common.{
  ℕ, ◌/◌, ℤ, pos, pos_part, ◌≤ℤ◌, ◌+ℤ◌, ◌-ℤ◌, arith, ◌≡◌, ◌≢◌, refl, str_eq, if◌then◌else◌, Bool,
  true, false, none, some, List, [], ◌∷◌, ok, err, Error,
}
use cert_manager_approver_po.Tls.{
  max_duration, time_sub, divide_by_minus_three, renew_moment, Provider, Authority, finished,
  failed, blocked, send_moment, write_key, write_certificate, encode_both, write_both,
  update_certificate, dns_name, signed_pair, update_with, regenerate_certificate, nothing, created,
  after_regenerate, attempt, after_call, after_polling, poll_new,
}
use cert_manager_approver_po.Tls.Renewal.{renew_moment-third}
use cert_manager_approver_po.Tls.Update.{Pair, Ends, regenerate_certificate-Ends}
use cert_manager_approver_po.Tls.System.{
  ended, waiting, resting, selecting, take_moment, first_moment, tick, cancel, end, request_closed,
  unreachable, sending, System, begin, resume, regenerate, rotated, Reach, start, next,
}
use cert_manager_approver_po.Tls.System.Progress.{Delivers, Reach-Delivers}

-- An hour from moment 10 to moment 3610 leaves 1200.
renewed_after_two_thirds : renew_moment (pos 10) (pos 3610) ≡ pos 2410
unfolding renew_moment time_sub divide_by_minus_three ◌-ℤ◌ ◌+ℤ◌
renewed_after_two_thirds = refl

starts_before_end : pos 10 ≤ℤ pos 3610
starts_before_end = omega arith

fits : (pos 3610 -ℤ pos 10) ≤ℤ max_duration
unfolding ◌-ℤ◌
fits = omega arith

renew_moment-third_example :
    (pos 10 ≤ℤ renew_moment (pos 10) (pos 3610))
    × (renew_moment (pos 10) (pos 3610) ≤ℤ pos 3610)
    × (pos 3610 -ℤ renew_moment (pos 10) (pos 3610) ≡ pos (pos_part (pos 3610 -ℤ pos 10) / 3))
renew_moment-third_example = renew_moment-third (pos 10) (pos 3610) starts_before_end fits

-- Keys and certificates by their files' content.
abbrev pub signer : Authority
signer = record {
  Key = List ℕ;
  Certificate = List ℕ;
  generate_key = ok (1 ∷ []);
  sign = λ key name. ok (2 ∷ key);
  encode_key = λ key. ok key;
  encode_certificate = λ cert. ok cert;
  not_before = λ cert. pos 10;
  not_after = λ cert. pos 3610;
  write_file = λ name content. ok tt;
  torn = λ old new. [];
}

-- One whose second write fails.
abbrev pub full_disk : Authority
full_disk = record signer {
  write_file =
      λ name content. if str_eq name "tls.key" then err (Error.reported "no space") else ok tt;
}

abbrev pub found : Provider
found = record { files = record { crt = []; key = 9 ∷ [] }; next_renew = none }

abbrev pub ready : Provider
ready = record { files = record { crt = 2 ∷ 1 ∷ []; key = 1 ∷ [] }; next_renew = some (pos 2410) }

regenerates : regenerate_certificate signer "policy" "cert-manager" found ≡ finished ready
unfolding regenerate_certificate update_with signed_pair update_certificate write_both encode_both
    write_certificate write_key send_moment renew_moment time_sub divide_by_minus_three ◌-ℤ◌ ◌+ℤ◌
regenerates = refl

-- The second write fails: the new certificate stands beside what is left of the old key.
mismatched :
    regenerate_certificate full_disk "policy" "cert-manager" found
    ≡ failed
        (Error.reported "no space")
        (record { files = record { crt = 2 ∷ 1 ∷ []; key = [] }; next_renew = none })
unfolding regenerate_certificate update_with signed_pair update_certificate write_both encode_both
    write_certificate write_key
mismatched = refl

-- A moment that nobody has taken: both files are written, and the send waits.
waits : regenerate_certificate signer "policy" "cert-manager" ready ≡ blocked (pos 2410) ready
unfolding regenerate_certificate update_with signed_pair update_certificate write_both encode_both
    write_certificate write_key send_moment renew_moment time_sub divide_by_minus_three ◌-ℤ◌ ◌+ℤ◌
waits = refl

regenerate_certificate-Ends_example :
    Ends
      (Pair signer (dns_name "policy" "cert-manager"))
      (9 ∷ [])
      none
      (regenerate_certificate signer "policy" "cert-manager" found)
regenerate_certificate-Ends_example =
    regenerate_certificate-Ends signer "policy" "cert-manager" found

abbrev pub never : Error → Bool
never e = false

creates :
    poll_new never "policy" "cert-manager" false ((nothing, signer) ∷ []) found ≡ created ready
unfolding poll_new after_call after_polling attempt after_regenerate
creates = rw regenerates refl

-- A rotation before the goroutine has taken the first moment.
abbrev stuck : System
stuck = record (begin ready) { poller = sending (pos 2410) }

rotates : regenerate "policy" "cert-manager" signer (begin ready) ≡ stuck
unfolding regenerate begin resume
rotates = rw waits refl

run : Reach "policy" "cert-manager" never stuck
unfolding begin
run =
    subst (Reach "policy" "cert-manager" never) rotates
      (next (start false ((nothing, signer) ∷ []) found ready refl creates) (rotated signer refl))

Reach-Delivers_example :
    (stuck.renewer ≢ unreachable)
    × (stuck.renewer ≡ ended → stuck.cancelled ≡ true)
    × ((moment : ℤ)
        → stuck.cancelled ≡ false
        → stuck.poller ≡ sending moment
        → Delivers "policy" "cert-manager" stuck)
Reach-Delivers_example = Reach-Delivers never "policy" "cert-manager" stuck run

-- The goroutine takes the first moment, a rotation fills the buffer, the context is cancelled and the
-- goroutine ends; the polling then finds its channel closed.
abbrev shut : System
shut = record { provider = ready; renewer = ended; poller = selecting; cancelled = true }

abbrev stranded : System
stranded = record shut { poller = sending (pos 2410) }

refills :
    regenerate "policy" "cert-manager" signer (take_moment (pos 2410) (begin ready))
    ≡ record { provider = ready; renewer = waiting (pos 2410); poller = resting; cancelled = false }
unfolding begin regenerate resume regenerate_certificate update_with signed_pair update_certificate
    write_both encode_both write_certificate write_key send_moment renew_moment time_sub
    divide_by_minus_three ◌-ℤ◌ ◌+ℤ◌
refills = refl

strands : regenerate "policy" "cert-manager" signer shut ≡ stranded
unfolding regenerate resume
strands = rw waits refl

run_to_shut : Reach "policy" "cert-manager" never shut
unfolding begin
run_to_shut =
    let created_run = start false ((nothing, signer) ∷ []) found ready refl creates in
    let filled =
      subst (Reach "policy" "cert-manager" never) refills
        (next (next created_run (first_moment (pos 2410) refl refl)) (rotated signer refl)) in
    next (next (next filled (tick refl)) (cancel refl)) (end refl refl)

-- The polling waits to send, and nobody is left to make room: `Start` does not return.
run_to_stranded : Reach "policy" "cert-manager" never stranded
run_to_stranded =
    subst (Reach "policy" "cert-manager" never) strands
      (next run_to_shut (request_closed signer refl refl))
