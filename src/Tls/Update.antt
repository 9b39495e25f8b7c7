-- ===== src/Tls/Update.antt =====
-- pkg/internal/webhook/tls/tls.go: what a regeneration leaves behind.
use mathlib.Core.Path.{subst}
use cert_manager_approver_po.Common.{
  Bool, false, Bool-cases, ℕ, ℤ, String, Bool, Option, none, some, List, [], ◌∷◌, ◌≡◌, refl, sym,
  ◌⊎◌, inl, inr, Outcome, ok, err, panic, Error, >>=-eq-ok,
}
use cert_manager_approver_po.Tls.{
  renew_moment, Files, Provider, Authority, Regenerated, finished, failed, blocked, crashed,
  send_moment, write_key, write_certificate, encode_both, write_both, signed_pair, update_with,
  update_certificate, dns_name, regenerate_certificate, Message, nothing, closed, stopped_with,
  Attempt, retry, settled, Bootstrap, created, given_up, polling, hung, aborted, after_regenerate,
  after_call, after_polling, attempt, poll_new,
}

-- A key and a certificate for the name, and their encodings.
pub record Pair (a : Authority) (name : String) (files : Files) (moment : ℤ) : Type 0 where
  pub pk : a.Key
  pub cert : a.Certificate
  pub generated : a.generate_key ≡ ok pk
  pub signed : a.sign pk name ≡ ok cert
  pub key_file : a.encode_key pk ≡ ok files.key
  pub crt_file : a.encode_certificate cert ≡ ok files.crt
  pub renewed : moment ≡ renew_moment (a.not_before cert) (a.not_after cert)

-- What each ending says of the provider before, by its key and its buffer, and after; `P` is what a
-- complete write establishes.
abbrev pub Ends : (Files → ℤ → Type 0) → List ℕ → Option ℤ → Regenerated → Type 0
Ends P key before (finished t) =
    (before ≡ none) × ((moment : ℤ) × (t.next_renew ≡ some moment) × P t.files moment)
Ends P key before (failed e t) =
    (t.next_renew ≡ before)
    × ((t.files.key ≡ key)
        ⊎ ((key_data : List ℕ) × (moment : ℤ) × P (record { crt = t.files.crt; key = key_data })
              moment))
Ends P key before (blocked moment t) =
    (t.next_renew ≡ before) × ((waiting : ℤ) × (before ≡ some waiting)) × P t.files moment
Ends P key before crashed = Unit

send_moment-Ends :
    (P : Files → ℤ → Type 0) (moment : ℤ) (files : Files) (key : List ℕ) (before : Option ℤ)
    → P files moment
    → Ends P key before (send_moment moment files before)
unfolding send_moment
send_moment-Ends P moment files key none p = (refl, (moment, refl, p))
send_moment-Ends P moment files key (some waiting) p = (refl, (waiting, refl), p)

module _ (a : Authority) where
  write_key-Ends :
      (P : Files → ℤ → Type 0) (moment : ℤ) (key_data : List ℕ) (t : Provider)
      (m : Outcome (Unit {0}))
      → P (record { crt = t.files.crt; key = key_data }) moment
      → Ends P t.files.key t.next_renew (write_key a moment key_data t m)
  unfolding write_key
  write_key-Ends P moment key_data t (ok _) p =
      send_moment-Ends P moment _ t.files.key t.next_renew p
  write_key-Ends P moment key_data t (err e) p = (refl, inr (key_data, moment, p))
  write_key-Ends P moment key_data t panic p = tt

  write_certificate-Ends :
      (P : Files → ℤ → Type 0) (moment : ℤ) (key_data cert_data : List ℕ) (t : Provider)
      (m : Outcome (Unit {0}))
      → P (record { crt = cert_data; key = key_data }) moment
      → Ends P t.files.key t.next_renew (write_certificate a moment key_data cert_data t m)
  unfolding write_certificate
  write_certificate-Ends P moment key_data cert_data t (ok _) p =
      write_key-Ends P moment key_data
        (record t { files = record { crt = cert_data; key = t.files.key } })
        (a.write_file "tls.key" key_data) p
  write_certificate-Ends P moment key_data cert_data t (err e) p = (refl, inl refl)
  write_certificate-Ends P moment key_data cert_data t panic p = tt

  encode_both_parts :
      (pk : a.Key) (cert : a.Certificate) (key_data cert_data : List ℕ)
      → encode_both a pk cert ≡ ok (key_data, cert_data)
      → (a.encode_key pk ≡ ok key_data) × (a.encode_certificate cert ≡ ok cert_data)
  unfolding encode_both
  encode_both_parts pk cert key_data cert_data h =
      let (key, key_ok, rest) = >>=-eq-ok (a.encode_key pk) _ h in
      let (crt, crt_ok, done) = >>=-eq-ok (a.encode_certificate cert) _ rest in (cc, cc)

  signed_pair_parts :
      (name : String) (pk : a.Key) (cert : a.Certificate)
      → signed_pair a name ≡ ok (pk, cert)
      → (a.generate_key ≡ ok pk) × (a.sign pk name ≡ ok cert)
  unfolding signed_pair
  signed_pair_parts name pk cert h =
      let (key, key_ok, rest) = >>=-eq-ok a.generate_key _ h in
      let (crt, crt_ok, done) = >>=-eq-ok (a.sign key name) _ rest in (cc, cc)

  write_both-Ends :
      (P : Files → ℤ → Type 0) (moment : ℤ) (m : Outcome (List ℕ × List ℕ)) (t : Provider)
      → ((key_data cert_data : List ℕ)
          → m ≡ ok (key_data, cert_data)
          → P (record { crt = cert_data; key = key_data }) moment)
      → Ends P t.files.key t.next_renew (write_both a moment m t)
  unfolding write_both
  write_both-Ends P moment (ok (key_data, cert_data)) t p =
      write_certificate-Ends P moment key_data cert_data t (a.write_file "tls.crt" cert_data)
        (p key_data cert_data refl)
  write_both-Ends P moment (err e) t p = (refl, inl refl)
  write_both-Ends P moment panic t p = tt

  update_with-Ends :
      (name : String) (m : Outcome (a.Key × a.Certificate)) (t : Provider)
      → m ≡ signed_pair a name
      → Ends (Pair a name) t.files.key t.next_renew (update_with a m t)
  unfolding update_with update_certificate
  update_with-Ends name (ok (pk, cert)) t h =
      let (generated, signed) = signed_pair_parts name pk cert (sym h) in
      write_both-Ends (Pair a name) _ (encode_both a pk cert) t (λ key_data cert_data encoded.
        let (key_file, crt_file) = encode_both_parts pk cert key_data cert_data encoded in
        record {
          pk = pk;
          cert = cert;
          generated = generated;
          signed = signed;
          key_file = key_file;
          crt_file = crt_file;
          renewed = refl;
        })
  update_with-Ends name (err e) t h = (refl, inl refl)
  update_with-Ends name panic t h = tt

-- A regeneration that ends with a nil error leaves a generated key, with the certificate that the
-- authority signed on it for the service's DNS name, in the two files, and their renewal moment in a
-- buffer that was empty. One that fails keeps the moment of the buffer, and the key on disk too unless
-- the new certificate already stands beside it. One that never ends has written both files, and met a
-- moment that nobody had taken from the buffer.
pub regenerate_certificate-Ends :
    (a : Authority) (service_name secret_namespace : String) (t : Provider)
    → Ends
        (Pair a (dns_name service_name secret_namespace))
        t.files.key
        t.next_renew
        (regenerate_certificate a service_name secret_namespace t)
unfolding regenerate_certificate
regenerate_certificate-Ends a service_name secret_namespace t = update_with-Ends a _ _ t refl

-- What the polling comes to, for a provider whose buffer is empty when it starts.
abbrev pub Begins : Bool → Bootstrap → Type 0
Begins cancelled (created t) = (moment : ℤ) × (t.next_renew ≡ some moment)
Begins cancelled (given_up e) = Unit
Begins cancelled polling = cancelled ≡ false
Begins cancelled hung = ⊥
Begins cancelled aborted = Unit

abbrev Continues : Bool → Attempt → Type 0
Continues cancelled (retry t) = t.next_renew ≡ none
Continues cancelled (settled b) = Begins cancelled b

after_regenerate-Continues :
    (cancelled : Bool) (P : Files → ℤ → Type 0) (key : List ℕ) (m : Regenerated)
    → Ends P key none m
    → Continues cancelled (after_regenerate m)
unfolding after_regenerate
after_regenerate-Continues cancelled P key (finished t) (empty, (moment, sent, p)) = (moment, sent)
after_regenerate-Continues cancelled P key (failed e t) (same, p) = same
after_regenerate-Continues cancelled P key (blocked moment t) (same, (waiting, full), p) = cc
after_regenerate-Continues cancelled P key crashed h = tt

module _ (is_wait_timeout : Error → Bool) (service_name secret_namespace : String)
    (cancelled : Bool) where
  regenerate-Continues :
      (a : Authority) (t : Provider)
      → t.next_renew ≡ none
      → Continues cancelled
          (after_regenerate (regenerate_certificate a service_name secret_namespace t))
  regenerate-Continues a t empty =
      let name = dns_name service_name secret_namespace in
      let m = regenerate_certificate a service_name secret_namespace t in
      after_regenerate-Continues cancelled (Pair a name) t.files.key m (
        subst (λ b. Ends (Pair a name) t.files.key b m) empty
          (regenerate_certificate-Ends a service_name secret_namespace t))

  attempt-Continues :
      (message : Message) (a : Authority) (t : Provider)
      → t.next_renew ≡ none
      → Continues cancelled (attempt is_wait_timeout service_name secret_namespace message a t)
  unfolding attempt
  attempt-Continues nothing a t empty = regenerate-Continues a t empty
  attempt-Continues (stopped_with none) a t empty = regenerate-Continues a t empty
  attempt-Continues (stopped_with (some e)) a t empty = tt
  attempt-Continues closed a t empty = tt

  after_polling-Begins :
      (b : Bootstrap)
      → Begins cancelled b
      → Begins cancelled (after_polling is_wait_timeout service_name secret_namespace b)
  unfolding after_polling
  after_polling-Begins (created t) h = h
  after_polling-Begins (given_up e) h = h
  after_polling-Begins polling h = h
  after_polling-Begins hung h = h
  after_polling-Begins aborted h = h

  after_call-Begins :
      (rest : Provider → Bootstrap) (m : Attempt)
      → ((t : Provider) → t.next_renew ≡ none → Begins cancelled (rest t))
      → Continues cancelled m
      → Begins cancelled (after_call is_wait_timeout service_name secret_namespace rest m)
  unfolding after_call
  after_call-Begins rest (retry t) h b = h t b
  after_call-Begins rest (settled m) h b = after_polling-Begins m b

  -- Polling that starts with an empty buffer never waits for room in it, and leaves a moment in it when
  -- it creates the provider.
  pub poll_new-Begins :
      (calls : List (Message × Authority)) (t : Provider)
      → t.next_renew ≡ none
      → Begins cancelled (poll_new is_wait_timeout service_name secret_namespace cancelled calls t)
  unfolding poll_new
  poll_new-Begins [] t empty = elim (Bool-cases cancelled) [
    | inl over ↦ rw over tt
    | inr open_still ↦ rw open_still refl
  ]
  poll_new-Begins ((message, a) ∷ calls) t empty =
      after_call-Begins _ _ (λ t' h. poll_new-Begins calls t' h)
        (attempt-Continues message a t empty)
