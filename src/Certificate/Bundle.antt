-- ===== src/Certificate/Bundle.antt =====
-- What ParseCertificateBundle accepts.
use cert_rollover_impact_ass.Prelude.{
  ℕ, zero, suc, ◌+◌, ◌<◌, ◌≡◌, ◌≢◌, ◌↔◌, refl, sym, ap, ◌∙◌, true, false, Option, none, some, List,
  [], ◌∷◌, String, arith, Bool-cases, inl, inr, subst, eq_iff,
}
use cert_rollover_impact_ass.Service.{ok}
use cert_rollover_impact_ass.Certificate.{
  Certificate, Block, Crypto, mentions_key, is_blank, certificate_of, Parsed, parsed, malformed,
  out_of_fuel, prepend, read_block, parse_blocks, not_empty, parse_certificate_bundle,
}

-- The documented behaviour of pem.Decode: what is left is shorter, since a block is taken off.
abbrev pub IsShrinking : Crypto → Type 0
IsShrinking crypto =
    (text rest : String) (block : Block)
    → crypto.decode text ≡ some (block, rest)
    → crypto.byte_length rest < crypto.byte_length text

module _ (crypto : Crypto) where
  -- A text of which pem.Decode takes one block after another, each of the type CERTIFICATE and with
  -- a certificate in it, until only space is left.
  pub data IsBundle : String → List Certificate → Type 0 where
    blank : {text : String} → crypto.trim_space text ≡ "" → IsBundle text []
    block :
        {text rest : String} {c : Certificate} {cs : List Certificate} (b : Block)
        → crypto.trim_space text ≢ ""
        → crypto.decode text ≡ some (b, rest)
        → b.kind ≡ "CERTIFICATE"
        → crypto.parse_certificate b.bytes ≡ some c
        → IsBundle rest cs
        → IsBundle text (c ∷ cs)

  certificate_of_iff :
      (b : Block) (c : Certificate)
      → (certificate_of crypto b ≡ some c)
        ↔ ((b.kind ≡ "CERTIFICATE") × (crypto.parse_certificate b.bytes ≡ some c))
  certificate_of_iff b c = ground (arith, eq_iff b.kind "CERTIFICATE")

  is_blank_iff : (text : String) → (is_blank crypto text ≡ true) ↔ (crypto.trim_space text ≡ "")
  is_blank_iff text = eq_iff (crypto.trim_space text) ""

  not_blank : (text : String) → is_blank crypto text ≡ false → crypto.trim_space text ≢ ""
  not_blank text h e = let yes_blank = (is_blank_iff text).1 e in cc

  not_blank_of : (text : String) → crypto.trim_space text ≢ "" → is_blank crypto text ≡ false
  not_blank_of text n = elim (Bool-cases (is_blank crypto text)) [
    | inl b ↦ absurd (n ((is_blank_iff text).0 b))
    | inr b ↦ b
  ]

  prepend_parsed :
      (c : Certificate) (p : Parsed) (cs : List Certificate)
      → prepend c p ≡ parsed cs
      → (rest : List Certificate) × (p ≡ parsed rest) × (c ∷ rest ≡ cs)
  prepend_parsed c (parsed rest) cs h = (rest, refl, cc)
  prepend_parsed c malformed cs h = cc
  prepend_parsed c out_of_fuel cs h = cc

  prepend_returns : (c : Certificate) (p : Parsed) → prepend c p ≡ out_of_fuel → p ≡ out_of_fuel
  prepend_returns c (parsed cs) h = cc
  prepend_returns c malformed h = cc
  prepend_returns c out_of_fuel h = refl

  -- a turn of the loop with the certificate, if there is one
  abbrev turn : (String → Parsed) → String → Option Certificate → Parsed
  turn later rest o = elim o [ none ↦ malformed | some c ↦ prepend c (later rest) ]

  read_block_returns :
      (later : String → Parsed) (o : Option (Block × String))
      → ((b : Block) (rest : String) → o ≡ some (b, rest) → later rest ≢ out_of_fuel)
      → read_block crypto later o ≢ out_of_fuel
  read_block_returns later none h e = cc
  read_block_returns later (some (b, rest)) h e = go (certificate_of crypto b) e
    where
      go : (o : Option Certificate) → turn later rest o ≡ out_of_fuel → ⊥
      go none e = cc
      go (some c) e = h b rest refl (prepend_returns c (later rest) e)

  -- a turn that gave certificates
  record Turned (later : String → Parsed) (o : Option (Block × String)) (cs : List Certificate)
      : Type 0 where
    taken : Block
    rest : String
    first : Certificate
    others : List Certificate
    decoded : o ≡ some (taken, rest)
    is_certificate : certificate_of crypto taken ≡ some first
    went_on : later rest ≡ parsed others
    together : first ∷ others ≡ cs

  read_block_parsed :
      (later : String → Parsed) (o : Option (Block × String)) (cs : List Certificate)
      → read_block crypto later o ≡ parsed cs
      → Turned later o cs
  read_block_parsed later none cs h = cc
  read_block_parsed later (some (b, rest)) cs h = go (certificate_of crypto b) refl h
    where
      go :
          (o : Option Certificate)
          → certificate_of crypto b ≡ o
          → turn later rest o ≡ parsed cs
          → Turned later (some (b, rest)) cs
      go none e h = cc
      go (some c) e h =
          let (others, p, same) = prepend_parsed c (later rest) cs h in
          record {
            taken = b;
            rest = rest;
            first = c;
            others = others;
            decoded = refl;
            is_certificate = e;
            went_on = p;
            together = same;
          }

  parse_blocks_sound :
      (fuel : ℕ) (text : String) (cs : List Certificate)
      → parse_blocks crypto fuel text ≡ parsed cs
      → IsBundle text cs
  unfolding parse_blocks
  parse_blocks_sound zero text cs h = cc
  parse_blocks_sound (suc fuel) text cs h = elim (Bool-cases (is_blank crypto text)) [
    | inl b ↦
        let empty : parsed [] ≡ parsed cs = rw b at h in
        let same : [] ≡ cs = cc in subst (IsBundle text) same (blank ((is_blank_iff text).0 b))
    | inr b ↦
        let turned : read_block crypto (parse_blocks crypto fuel) (crypto.decode text) ≡ parsed cs =
          rw b at h in
        let t = read_block_parsed (parse_blocks crypto fuel) (crypto.decode text) cs turned in
        let (kind, parses) = (certificate_of_iff t.taken t.first).0 t.is_certificate in
        subst (IsBundle text) t.together (
          block t.taken (not_blank text b) t.decoded kind parses
            (parse_blocks_sound fuel t.rest t.others t.went_on))
  ]

  module _ (shrinks : IsShrinking crypto) where
    -- With more fuel than bytes the loop ends.
    parse_blocks_returns :
        (fuel : ℕ) (text : String)
        → crypto.byte_length text < fuel
        → parse_blocks crypto fuel text ≢ out_of_fuel
    unfolding parse_blocks
    parse_blocks_returns zero text h e = absurd (omega arith)
    parse_blocks_returns (suc fuel) text h e = elim (Bool-cases (is_blank crypto text)) [
      | inl b ↦ let bad : parsed [] ≡ out_of_fuel = rw b at e in cc
      | inr b ↦
          let bad : read_block crypto (parse_blocks crypto fuel) (crypto.decode text)
              ≡ out_of_fuel =
            rw b at e in
          read_block_returns (parse_blocks crypto fuel) (crypto.decode text)
            (λ taken rest d.
              let shorter = shrinks text rest taken d in
              parse_blocks_returns fuel rest (omega arith))
            bad
    ]

    parse_blocks_complete :
        (fuel : ℕ) {text : String} {cs : List Certificate}
        → IsBundle text cs
        → crypto.byte_length text < fuel
        → parse_blocks crypto fuel text ≡ parsed cs
    unfolding parse_blocks
    parse_blocks_complete zero b h = absurd (omega arith)
    parse_blocks_complete (suc fuel) (blank {text} b) h = rw ((is_blank_iff text).1 b) refl
    parse_blocks_complete (suc fuel) (block {text} {rest} {c} {cs} taken n d k q others) h =
        let b = not_blank_of text n in
        let e = (certificate_of_iff taken c).1 (k, q) in
        let shorter = shrinks text rest taken d in
        let after = parse_blocks_complete fuel others (omega arith) in
        let step : read_block crypto (parse_blocks crypto fuel) (crypto.decode text)
            ≡ parsed (c ∷ cs) =
          ap (read_block crypto (parse_blocks crypto fuel)) d
          ∙ ap (turn (parse_blocks crypto fuel) rest) e
          ∙ ap (prepend c) after in
        rw b step

    not_empty_lem :
        (p : Parsed) (cs : List Certificate) → (not_empty p ≡ ok cs) ↔ ((p ≡ parsed cs) × (cs ≢ []))
    not_empty_lem (parsed []) cs =
        (λ h. cc, λ (e, n). let same : [] ≡ cs = cc in absurd (n (sym same)))
    not_empty_lem (parsed (c ∷ rest)) cs = (
      λ h. let same : c ∷ rest ≡ cs = cc in (ap parsed same, λ e. cc),
      λ (e, _). let same : c ∷ rest ≡ cs = cc in ap ok same,
    )
    not_empty_lem malformed cs = (λ h. cc, λ (e, _). cc)
    not_empty_lem out_of_fuel cs = (λ h. cc, λ (e, _). cc)

    -- ParseCertificateBundle always ends, since pem.Decode leaves less than it is given, and it
    -- returns certificates exactly if the text, in upper case, does not contain PRIVATE KEY, and
    -- pem.Decode takes from the text without the space around it one block after another, at least
    -- one, until only space is left, and each block is of the type CERTIFICATE and has a certificate
    -- in it; then it returns these certificates, in the order of the blocks.
    pub parse_certificate_bundle_iff :
        (raw : String) (cs : List Certificate)
        → let text = crypto.trim_space raw in
          (parse_blocks crypto (crypto.byte_length text + 1) text ≢ out_of_fuel)
          × ((parse_certificate_bundle crypto raw ≡ ok cs) ↔ (
              (crypto.contains (crypto.to_upper raw) "PRIVATE KEY" ≡ false)
              × IsBundle text cs
              × (cs ≢ [])))
    unfolding parse_certificate_bundle
    parse_certificate_bundle_iff raw cs =
        let text = crypto.trim_space raw in
        let fuel = crypto.byte_length text + 1 in
        let (to, back) = not_empty_lem (parse_blocks crypto fuel text) cs in
        (
          parse_blocks_returns fuel text (omega arith),
          elim (Bool-cases (mentions_key crypto raw)) [
            | inl k ↦ rw k (λ h. cc, λ (bad, _, _). cc)
            | inr k ↦ rw k (
              λ h. let (p, n) = to h in (refl, parse_blocks_sound fuel text cs p, n),
              λ (_, b, n). back (parse_blocks_complete fuel b (omega arith), n),
            )
          ],
        )
