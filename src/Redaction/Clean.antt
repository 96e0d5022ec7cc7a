-- ===== src/Redaction/Clean.antt =====
-- No sensitive value remains.
use cert_rollover_impact_ass.Prelude.{
  ℕ, ◌+◌, ◌<◌, ◌≡◌, ◌↔◌, ◌⊎◌, refl, ap, sym, subst, true, false, ◌&&◌, String, Bool-cases, inl, inr,
  ⊎_elim, eq_iff, arith, leb, if◌then◌else◌,
}
use Prim.Native.Char.{code}
use cert_rollover_impact_ass.Redaction.{
  Json, null, boolean, number, text, array, object, Items, no_items, item, Fields, no_fields, field,
  Text, redacted, is_sensitive, hide, redact_value, redact_items, redact_fields,
}

-- What is secret under any spelling: passwords, tokens and headers that authorize, private keys,
-- certificates as PEM, and frozen inputs.
abbrev pub IsSecretName : String → Type 0
IsSecretName name =
    (name ≡ "password")
    ⊎ (name ≡ "password_hash")
    ⊎ (name ≡ "jwt")
    ⊎ (name ≡ "token")
    ⊎ (name ≡ "authorization")
    ⊎ (name ≡ "private_key")
    ⊎ (name ≡ "certificate_pem")
    ⊎ (name ≡ "certificates_pem")
    ⊎ (name ≡ "pem_redacted")
    ⊎ (name ≡ "public_chain_pem")
    ⊎ (name ≡ "input_snapshot")

-- an ASCII letter in lower case, another character as it is
abbrev pub lower_code : ℕ → ℕ
lower_code c = if leb b'A' c && leb c b'Z' then c + 32 else c

-- An ASCII text is the other one, but for the case of its letters.
abbrev pub IsLowerCaseOf : String → String → Type 0
IsLowerCaseOf String.[] String.[] = Unit
IsLowerCaseOf String.[] (String.◌∷◌ c s) = ⊥
IsLowerCaseOf (String.◌∷◌ d t) String.[] = ⊥
IsLowerCaseOf (String.◌∷◌ d t) (String.◌∷◌ c s) =
    (code d ≡ lower_code (code c)) × (code c < 128) × IsLowerCaseOf t s

-- The documented behaviour of strings.ToLower on ASCII texts.
abbrev pub IsLowering : Text → Type 0
IsLowering lib = (key name : String) → IsLowerCaseOf name key → lib.to_lower key ≡ name

module _ (lib : Text) where
  -- A key is secret if strings.ToLower gives a secret name, or if it is a secret name but for the
  -- case of its letters.
  abbrev pub IsSecret : String → Type 0
  IsSecret key =
      IsSecretName (lib.to_lower key)
      ⊎ ((name : String) × IsSecretName name × IsLowerCaseOf name key)

  -- Under a secret key stands the mark, and under another one a value with the property.
  abbrev pub IsHidden : String → Json → Type 0 → Type 0
  IsHidden key value P = (IsSecret key → value ≡ redacted) × (¬ IsSecret key → P)

  -- Nothing secret is in a value that stands under a key, at any depth.
  mutual
    pub IsClean : String → Json → Type 0
    IsClean key null = IsHidden key null Unit
    IsClean key (boolean b) = IsHidden key (boolean b) Unit
    IsClean key (number n) = IsHidden key (number n) Unit
    IsClean key (text s) = IsHidden key (text s) Unit
    IsClean key (array items) = IsHidden key (array items) (AreClean key items)
    IsClean key (object fields) = IsHidden key (object fields) (FieldsAreClean fields)

    pub AreClean : String → Items → Type 0
    AreClean key no_items = Unit
    AreClean key (item value items) = IsClean key value × AreClean key items

    pub FieldsAreClean : Fields → Type 0
    FieldsAreClean no_fields = Unit
    FieldsAreClean (field key value fields) = IsClean key value × FieldsAreClean fields

  listed_iff : (key : String) → (is_sensitive lib key ≡ true) ↔ IsSecretName (lib.to_lower key)
  unfolding is_sensitive
  listed_iff key =
      let name = lib.to_lower key in
      ground (
        arith,
        eq_iff name "password",
        eq_iff name "password_hash",
        eq_iff name "jwt",
        eq_iff name "token",
        eq_iff name "authorization",
        eq_iff name "private_key",
        eq_iff name "certificate_pem",
        eq_iff name "certificates_pem",
        eq_iff name "pem_redacted",
        eq_iff name "public_chain_pem",
        eq_iff name "input_snapshot",
      )

module _ (lib : Text) (lowers : IsLowering lib) where
  IsSecret-iff : (key : String) → (is_sensitive lib key ≡ true) ↔ IsSecret lib key
  IsSecret-iff key =
      let (to, back) = listed_iff lib key in
      (
        λ h. inl (to h),
        ⊎_elim back
            (λ (name, secret, same). back (subst IsSecretName (sym (lowers key name same)) secret)),
      )

  not-IsSecret : (key : String) → is_sensitive lib key ≡ false → ¬ IsSecret lib key
  not-IsSecret key e s = let bad = (IsSecret-iff key).1 s in cc

  not_hidden :
      (key : String) (value : Json) {P : Type 0}
      → is_sensitive lib key ≡ false
      → P
      → IsHidden lib key value P
  not_hidden key value e p = (λ t. absurd (not-IsSecret key e t), λ _. p)

  hide-IsClean :
      (key : String) (value : Json)
      → (is_sensitive lib key ≡ false → IsClean lib key value)
      → IsClean lib key (hide lib key value)
  unfolding hide IsClean
  hide-IsClean key value h = elim (Bool-cases (is_sensitive lib key)) [
    | inl e ↦ rw e (λ _. refl, λ n. absurd (n ((IsSecret-iff key).0 e)))
    | inr e ↦ rw e (h e)
  ]

  mutual
    unfolding redact_value redact_items redact_fields IsClean AreClean FieldsAreClean

    redact_value-IsClean :
        (key : String) (value : Json) → IsClean lib key (redact_value lib key value)
    redact_value-IsClean key null = hide-IsClean key null (λ e. not_hidden key null e tt)
    redact_value-IsClean key (boolean b) =
        hide-IsClean key (boolean b) (λ e. not_hidden key (boolean b) e tt)
    redact_value-IsClean key (number n) =
        hide-IsClean key (number n) (λ e. not_hidden key (number n) e tt)
    redact_value-IsClean key (text s) =
        hide-IsClean key (text s) (λ e. not_hidden key (text s) e tt)
    redact_value-IsClean key (array items) =
        let clean = redact_items-AreClean key items in
        hide-IsClean key (array (redact_items lib key items))
          (λ e. not_hidden key (array (redact_items lib key items)) e clean)
    redact_value-IsClean key (object fields) =
        let clean = redact_fields-FieldsAreClean fields in
        hide-IsClean key (object (redact_fields lib fields))
          (λ e. not_hidden key (object (redact_fields lib fields)) e clean)

    redact_items-AreClean :
        (key : String) (items : Items) → AreClean lib key (redact_items lib key items)
    redact_items-AreClean key no_items = tt
    redact_items-AreClean key (item value items) =
        (redact_value-IsClean key value, redact_items-AreClean key items)

    redact_fields-FieldsAreClean : (fields : Fields) → FieldsAreClean lib (redact_fields lib fields)
    redact_fields-FieldsAreClean no_fields = tt
    redact_fields-FieldsAreClean (field key value fields) =
        (redact_value-IsClean key value, redact_fields-FieldsAreClean fields)

  -- A value that is hidden right stays as it is.
  hide_same :
      (key : String) (value inner : Json) {P : Type 0}
      → IsHidden lib key value P
      → (P → inner ≡ value)
      → hide lib key inner ≡ value
  unfolding hide
  hide_same key value inner (marked, plain) h = elim (Bool-cases (is_sensitive lib key)) [
    | inl e ↦ rw e (sym (marked ((IsSecret-iff key).0 e)))
    | inr e ↦ rw e (h (plain (not-IsSecret key e)))
  ]

  mutual
    unfolding redact_value redact_items redact_fields IsClean AreClean FieldsAreClean

    redact_value_same :
        (key : String) (value : Json) → IsClean lib key value → redact_value lib key value ≡ value
    redact_value_same key null h = hide_same key null null h (λ _. refl)
    redact_value_same key (boolean b) h = hide_same key (boolean b) (boolean b) h (λ _. refl)
    redact_value_same key (number n) h = hide_same key (number n) (number n) h (λ _. refl)
    redact_value_same key (text s) h = hide_same key (text s) (text s) h (λ _. refl)
    redact_value_same key (array items) h =
        hide_same key (array items) (array (redact_items lib key items)) h
          (λ p. ap array (redact_items_same key items p))
    redact_value_same key (object fields) h =
        hide_same key (object fields) (object (redact_fields lib fields)) h
          (λ p. ap object (redact_fields_same fields p))

    redact_items_same :
        (key : String) (items : Items) → AreClean lib key items → redact_items lib key items ≡ items
    redact_items_same key no_items h = refl
    redact_items_same key (item value items) (a, b) =
        rw (redact_value_same key value a, redact_items_same key items b) refl

    redact_fields_same :
        (fields : Fields) → FieldsAreClean lib fields → redact_fields lib fields ≡ fields
    redact_fields_same no_fields h = refl
    redact_fields_same (field key value fields) (a, b) =
        rw (redact_value_same key value a, redact_fields_same fields b) refl

  -- If strings.ToLower puts ASCII letters in lower case, what RedactValue returns has nothing secret
  -- at any depth: under each key that is one of the eleven secret names, but for the case of its
  -- letters, or that strings.ToLower turns into one, stands the mark. It leaves a value alone exactly
  -- if the value is clean in this sense, so that redacting twice is redacting once.
  pub redact_value_cleans :
      (key : String) (value : Json)
      → IsClean lib key (redact_value lib key value)
        × ((redact_value lib key value ≡ value) ↔ IsClean lib key value)
        × (redact_value lib key (redact_value lib key value) ≡ redact_value lib key value)
  redact_value_cleans key value =
      let clean = redact_value-IsClean key value in
      (
        clean,
        (λ e. subst (IsClean lib key) e clean, redact_value_same key value),
        redact_value_same key (redact_value lib key value) clean,
      )
