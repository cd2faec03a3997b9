-- ===== src/Address/Formats.antt =====
-- The parts of the URLs that lo_address_get_url (src/address.c) makes.
use liblo.Base.{
  ℕ, ◌≡◌, ◌≢◌, refl, ◌∙◌, true, false, none, some, List, [], ◌∷◌, ◌++◌, Bytes, codes, arith, ◌==◌,
}
use liblo.Address.Scan.{
  Directive, Scanned, scan, count, sscanf, not_in, is_digit, AllIn, sscanf-chars, sscanf-scan,
}
use liblo.Address.Url.{
  text, found, scanned, lo_url_get_hostname, lo_url_get_port, osc_name, osc_dot, bare_host,
  quoted_host, named_host, bare_port, named_port, past_host,
}

-- A name of at least one character, without colon, slash and opening bracket.
abbrev pub IsHostName : Bytes → Type 0
IsHostName s = (s ≢ []) × AllIn (not_in (codes "[:/")) s

-- At least one decimal digit.
abbrev pub IsPort : Bytes → Type 0
IsPort s = (s ≢ []) × AllIn is_digit s

pub AllIn-not_colon : (s : Bytes) → AllIn (not_in (codes "[:/")) s → AllIn (not_in (codes ":")) s
unfolding not_in
AllIn-not_colon [] h = tt
AllIn-not_colon (c ∷ s) h = (ground arith, AllIn-not_colon s h.1)

not_bracket : (c : ℕ) → not_in (codes "[:/") c ≡ true → (c == b'[') ≡ false
unfolding not_in
not_bracket c h = ground arith

-- A URL with the protocol `y ∷ ys`.
abbrev pub url_of : ℕ → Bytes → Bytes → Bytes
url_of y ys rest = codes "osc." ++ (y ∷ (ys ++ b':' ∷ b'/' ∷ b'/' ∷ rest))

abbrev pub nothing : Scanned
nothing = record { ret = count 0; stored = none }

module _ (y : ℕ) (ys : Bytes) (name : AllIn (not_in (codes ":/")) (y ∷ ys)) where
  osc_name-url_of :
      (format : List Directive) (rest : Bytes)
      → scanned (osc_name ++ format) (url_of y ys rest)
        ≡ sscanf format (b':' ∷ b'/' ∷ b'/' ∷ rest) 0 none
  unfolding scanned
  osc_name-url_of format rest =
      sscanf-chars (codes "osc.") (scan false (not_in (codes ":/")) ∷ format)
        (y ∷ (ys ++ b':' ∷ b'/' ∷ b'/' ∷ rest)) 0 none
      ∙ sscanf-scan false (not_in (codes ":/")) format y ys b':' (b'/' ∷ b'/' ∷ rest) 0 none name
          (unfold not_in in refl)

  AllIn-osc_dot : (s : Bytes) → AllIn (not_in (codes ":/")) s → AllIn (not_in (codes ":")) s
  unfolding not_in
  AllIn-osc_dot [] h = tt
  AllIn-osc_dot (c ∷ s) h = (ground arith, AllIn-osc_dot s h.1)

  pub osc_dot-url_of :
      (format : List Directive) (rest : Bytes)
      → scanned (osc_dot ++ format) (url_of y ys rest)
        ≡ sscanf format (b':' ∷ b'/' ∷ b'/' ∷ rest) 0 none
  unfolding scanned
  osc_dot-url_of format rest =
      sscanf-chars (codes "osc.") (scan false (not_in (codes ":")) ∷ format)
        (y ∷ (ys ++ b':' ∷ b'/' ∷ b'/' ∷ rest)) 0 none
      ∙ sscanf-scan false (not_in (codes ":")) format y ys b':' (b'/' ∷ b'/' ∷ rest) 0 none
          (AllIn-osc_dot (y ∷ ys) name) (unfold not_in in refl)

  -- The host name is found.
  pub lo_url_get_hostname-url_of :
      (x : ℕ) (h r : Bytes)
      → AllIn (not_in (codes "[:/")) (x ∷ h)
      → lo_url_get_hostname (url_of y ys (x ∷ (h ++ b':' ∷ r))) ≡ text (x ∷ h)
  unfolding lo_url_get_hostname found
  lo_url_get_hostname-url_of x h r all =
      let rest = x ∷ (h ++ b':' ∷ r) in
      let bare : scanned bare_host (url_of y ys rest) ≡ nothing = unfold scanned sscanf in refl in
      let at : (x == b'[') ≡ false = not_bracket x all.0 in
      let quoted : scanned quoted_host (url_of y ys rest) ≡ nothing =
        osc_name-url_of _ rest ∙ (unfold sscanf in ground arith) in
      let named : scanned named_host (url_of y ys rest)
          ≡ record { ret = count 1; stored = some (x ∷ h) } =
        osc_name-url_of _ rest
        ∙ sscanf-chars (codes "://") (scan true (not_in (codes "[:/")) ∷ []) rest 0 none
        ∙ sscanf-scan true (not_in (codes "[:/")) [] x h b':' r 0 none all (unfold not_in in refl)
        ∙ (unfold sscanf in refl) in
      rw (bare, quoted, named) refl

  -- The port behind the first colon is found.
  pub lo_url_get_port-url_of :
      (x : ℕ) (h : Bytes) (d : ℕ) (ds : Bytes) (c : ℕ) (r : Bytes)
      → AllIn (not_in (codes ":")) (x ∷ h)
      → AllIn is_digit (d ∷ ds)
      → is_digit c ≡ false
      → lo_url_get_port (url_of y ys (x ∷ (h ++ b':' ∷ d ∷ (ds ++ c ∷ r)))) ≡ text (d ∷ ds)
  unfolding lo_url_get_port found
  lo_url_get_port-url_of x h d ds c r host digits stop =
      let port = d ∷ (ds ++ c ∷ r) in
      let rest = x ∷ (h ++ b':' ∷ port) in
      let bare : scanned bare_port (url_of y ys rest) ≡ nothing = unfold scanned sscanf in refl in
      let named : scanned named_port (url_of y ys rest)
          ≡ record { ret = count 1; stored = some (d ∷ ds) } =
        osc_dot-url_of _ rest
        ∙ sscanf-chars (codes "://") past_host rest 0 none
        ∙ sscanf-scan false (not_in (codes ":")) _ x h b':' port 0 none host (unfold not_in in refl)
        ∙ sscanf-chars (codes ":") (scan true is_digit ∷ []) port 0 none
        ∙ sscanf-scan true is_digit [] d ds c r 0 none digits stop
        ∙ (unfold sscanf in refl) in
      rw (bare, named) refl
