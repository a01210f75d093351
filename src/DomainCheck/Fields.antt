-- ===== src/DomainCheck/Fields.antt =====
-- Which field of a WHOIS record src/domain-check/checks/whois-check.ts picks.
use servers_manager.Base.{
  ◌≡◌, refl, ap, ◌∙◌, true, Option, none, some, List, [], ◌∷◌, Text, trim, truthy, text_eq,
  Bool-cases, Option-cases, inl, inr,
}
use mathlib.Core.List.{Memᴰ}
use servers_manager.DomainCheck.Checks.{WhoisEntry, last_entry, usable, pick_field}

none-some {ℓ} : {A : Type ℓ} {a : A} → none ≡ some a → ⊥
none-some h = cc

some-injective {ℓ} : {A : Type ℓ} {a b : A} → some a ≡ some b → a ≡ b
some-injective h = cc

module _ (to_lower : Text → Text) where
  -- The entry is one of the record, under the wanted key but for its case.
  pub record IsEntry (wanted : Text) (entries : List WhoisEntry) (entry : WhoisEntry) : Type 0 where
    pub listed : Memᴰ entry entries
    pub keyed : text_eq (to_lower entry.key) wanted ≡ true

  last_entry-IsEntry :
      (wanted : Text) (entries : List WhoisEntry) (entry : WhoisEntry)
      → last_entry to_lower wanted entries ≡ some entry
      → IsEntry wanted entries entry
  unfolding last_entry
  last_entry-IsEntry wanted [] entry h = absurd (none-some h)
  last_entry-IsEntry wanted (e ∷ entries) entry h =
      elim (Option-cases (last_entry to_lower wanted entries)) [
        | inr (later, is) ↦
            let found : IsEntry wanted entries later = last_entry-IsEntry wanted entries later is in
            let same : later ≡ entry = some-injective (rw is at h) in
            rw (← same) (record { listed = Memᴰ.tail found.listed; keyed = found.keyed })
        | inl nothing ↦ elim (Bool-cases (text_eq (to_lower e.key) wanted)) [
          | inl k ↦
              let same : e ≡ entry = some-injective (rw (nothing, k) at h) in
              rw (← same) (record { listed = Memᴰ.head refl; keyed = k })
          | inr k ↦ absurd (none-some (rw (nothing, k) at h))
        ]
      ]

  usable-value :
      (entry : WhoisEntry) (value : Text)
      → usable (some entry) ≡ some value
      → (entry.value ≡ some value) × (truthy (trim value) ≡ true)
  unfolding usable
  usable-value entry value h = go entry.value h
    where
      go :
          (found : Option Text)
          → usable (some (record entry { value = found })) ≡ some value
          → (found ≡ some value) × (truthy (trim value) ≡ true)
      go none k = absurd (none-some k)
      go (some text) k = elim (Bool-cases (truthy entry.key)) [
        | inr a ↦ absurd (none-some (rw a at k))
        | inl a ↦ elim (Bool-cases (truthy (trim text))) [
          | inr b ↦ absurd (none-some (rw (a, b) at k))
          | inl b ↦
              let same : text ≡ value = some-injective (rw (a, b) at k) in
              (ap some same, rw (← same) b)
        ]
      ]

  -- The value is that of an entry of the record, not blank, whose key is one of the candidates.
  pub record IsPicked (whois : List WhoisEntry) (candidates : List Text) (value : Text)
      : Type 0 where
    pub candidate : Text
    pub entry : WhoisEntry
    pub asked : Memᴰ candidate candidates
    pub stands : IsEntry (to_lower candidate) whois entry
    pub read : entry.value ≡ some value
    pub filled : truthy (trim value) ≡ true

  usable-IsPicked :
      (whois : List WhoisEntry) (candidate : Text) (candidates : List Text) (value : Text)
      → usable (last_entry to_lower (to_lower candidate) whois) ≡ some value
      → IsPicked whois (candidate ∷ candidates) value
  unfolding usable
  usable-IsPicked whois candidate candidates value h =
      elim (Option-cases (last_entry to_lower (to_lower candidate) whois)) [
        | inl nothing ↦ absurd (none-some (rw nothing at h))
        | inr (entry, e) ↦
            let it : (entry.value ≡ some value) × (truthy (trim value) ≡ true) =
              usable-value entry value (rw e at h) in
            record {
              candidate = candidate;
              entry = entry;
              asked = Memᴰ.head refl;
              stands = last_entry-IsEntry (to_lower candidate) whois entry e;
              read = it.0;
              filled = it.1;
            }
      ]

  -- What the lookup picks of a WHOIS record is the value, not blank, of an entry of the record whose
  -- key is one of the candidates, but for its case.
  pub pick_field-IsPicked :
      (whois : List WhoisEntry) (candidates : List Text) (value : Text)
      → pick_field to_lower whois candidates ≡ some value
      → IsPicked whois candidates value
  unfolding pick_field
  pick_field-IsPicked whois [] value h = absurd (none-some h)
  pick_field-IsPicked whois (candidate ∷ candidates) value h =
      elim (Option-cases (usable (last_entry to_lower (to_lower candidate) whois))) [
        | inl nothing ↦
            let later : IsPicked whois candidates value =
              pick_field-IsPicked whois candidates value (rw (nothing, pick_field) at h) in
            record {
              candidate = later.candidate;
              entry = later.entry;
              asked = Memᴰ.tail later.asked;
              stands = later.stands;
              read = later.read;
              filled = later.filled;
            }
        | inr (picked, is) ↦
            usable-IsPicked whois candidate candidates value
              (is ∙ ap some (some-injective (rw (is, pick_field) at h)))
      ]
