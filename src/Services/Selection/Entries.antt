-- ===== src/Services/Selection/Entries.antt =====
-- A selection is a map from names to services: what adding to it does.
use freebsd_pkg_plugins.Base.{
  ℕ, ◌≡◌, refl, sym, ap, subst, ◌∙◌, Bool-cases, ==→eq, true, false, ◌||◌, Option, none, some, [],
  ◌∷◌, ◌++◌, ◌==◌, if◌then◌else◌, arith, inl, inr, Option-cases,
}
use mathlib.Core.Option.{some-injective}
use freebsd_pkg_plugins.Services.Selection.{
  ServiceData, ServiceAction, Flags, Selection, find_service, or_flags, update_service,
  value_create, services_selection_add,
}
use freebsd_pkg_plugins.Services.Selection.Blocked.{named, NamesOnce, find_service-head}

-- the entry of a name after an addition, by the one before
abbrev pub merged : Option ServiceData → ℕ → ServiceAction → Flags → ServiceData
merged none name action flags = record { name = name; flags = flags; action = action }
merged (some sd) name action flags = record sd {
  flags = record {
    direct = sd.flags.direct || flags.direct;
    blocked = sd.flags.blocked || flags.blocked;
  };
  action = action;
}

named-found :
    (name : ℕ) (ss : Selection) (sd : ServiceData)
    → find_service name ss ≡ some sd
    → named name ss ≡ true
named-found name [] sd e = cc
named-found name (x ∷ ss) sd e = ground (arith, named-found name ss sd)

find_service-tail :
    (name : ℕ) (x : ServiceData) (ss : Selection)
    → name == x.name ≡ false
    → find_service name (x ∷ ss) ≡ find_service name ss
find_service-tail name x ss e = rw e refl

module _ (name : ℕ) (action : ServiceAction) (flags : Flags) where
  find-appended :
      (ss : Selection) (other : ℕ)
      → find_service name ss ≡ none
      → find_service other (ss ++ value_create name action flags ∷ [])
        ≡ (if other == name then some (merged none name action flags) else find_service other ss)
  unfolding value_create
  find-appended [] other new = refl
  find-appended (sd ∷ ss) other new = elim (Bool-cases (other == sd.name)) [
    | inl e ↦ let apart : other == name ≡ false = ground arith in ground arith
    | inr e ↦ let rest = find-appended ss other (ground arith) in ground arith
  ]

  found_first :
      (ss : Selection) (other : ℕ) (x : ServiceData)
      → name == x.name ≡ true
      → find_service other (record x { flags = or_flags x.flags flags; action = action } ∷ ss) ≡ (
          if other == name
          then some (merged (some x) name action flags)
          else find_service other (x ∷ ss))
  found_first ss other x e = elim (Bool-cases (other == name)) [
    | inl hit ↦ let there : other == x.name ≡ true = ground arith in rw (hit, there) refl
    | inr miss ↦ let apart : other == x.name ≡ false = ground arith in rw (miss, apart) refl
  ]

  found_later :
      (ss : Selection) (other : ℕ) (x sd : ServiceData)
      → name == x.name ≡ false
      → find_service other (update_service name action flags ss) ≡ (
          if other == name
          then some (merged (some sd) name action flags)
          else find_service other ss)
      → find_service other (x ∷ update_service name action flags ss) ≡ (
          if other == name
          then some (merged (some sd) name action flags)
          else find_service other (x ∷ ss))
  found_later ss other x sd e rest = elim (Bool-cases (other == x.name)) [
    | inl hit ↦ let apart : other == name ≡ false = ground arith in rw (hit, apart) refl
    | inr miss ↦ rw miss rest
  ]

  find-updated :
      (ss : Selection) (other : ℕ) (sd : ServiceData)
      → find_service name ss ≡ some sd
      → find_service other (update_service name action flags ss) ≡ (
          if other == name
          then some (merged (some sd) name action flags)
          else find_service other ss)
  find-updated [] other sd found = cc
  find-updated (x ∷ ss) other sd found = elim (Bool-cases (name == x.name)) [
    | inl e ↦
        let same = some-injective x sd (sym (find_service-head name x ss e) ∙ found) in
        subst
          (λ y. find_service other (update_service name action flags (x ∷ ss)) ≡ (
            if other == name
            then some (merged (some y) name action flags)
            else find_service other (x ∷ ss)))
          same (rw (update_service, e) (found_first ss other x e))
    | inr e ↦
        rw (update_service, e)
          (found_later ss other x sd e
            (find-updated ss other sd (sym (find_service-tail name x ss e) ∙ found)))
  ]

  add-new :
      (ss : Selection)
      → find_service name ss ≡ none
      → services_selection_add ss name action flags ≡ ss ++ value_create name action flags ∷ []
  unfolding services_selection_add
  add-new ss e = rw (services_selection_add, e) refl

  add-known :
      (ss : Selection) (sd : ServiceData)
      → find_service name ss ≡ some sd
      → services_selection_add ss name action flags ≡ update_service name action flags ss
  unfolding services_selection_add
  add-known ss sd e = rw (services_selection_add, e) refl

  -- An addition merges the flags and the action into the entry of the name, or makes one, and leaves
  -- the entries of all other names as they were: so a block is never taken back.
  pub services_selection_add-find :
      (ss : Selection) (other : ℕ)
      → find_service other (services_selection_add ss name action flags) ≡ (
          if other == name
          then some (merged (find_service name ss) name action flags)
          else find_service other ss)
  services_selection_add-find ss other = elim (Option-cases (find_service name ss)) [
    | inl e ↦ rw (add-new ss e, e) (find-appended ss other e)
    | inr (sd, e) ↦ rw (add-known ss sd e, e) (find-updated ss other sd e)
  ]

  named-updated :
      (ss : Selection) (other : ℕ)
      → named other (update_service name action flags ss) ≡ named other ss
  named-updated [] other = refl
  named-updated (x ∷ ss) other = elim (Bool-cases (name == x.name)) [
    | inl e ↦ rw e refl
    | inr e ↦ rw e (ap (λ b. (other == x.name) || b) (named-updated ss other))
  ]

  NamesOnce-updated :
      (ss : Selection) → NamesOnce ss → NamesOnce (update_service name action flags ss)
  NamesOnce-updated [] once = tt
  NamesOnce-updated (x ∷ ss) once = elim (Bool-cases (name == x.name)) [
    | inl e ↦ rw e once
    | inr e ↦ rw e (named-updated ss x.name ∙ once.0, NamesOnce-updated ss once.1)
  ]

  named-appended :
      (ss : Selection) (other : ℕ)
      → named other (ss ++ value_create name action flags ∷ [])
        ≡ (named other ss || (other == name))
  unfolding value_create
  named-appended [] other = ground arith
  named-appended (x ∷ ss) other = ground (arith, named-appended ss other)

  NamesOnce-appended :
      (ss : Selection)
      → find_service name ss ≡ none
      → NamesOnce ss
      → NamesOnce (ss ++ value_create name action flags ∷ [])
  unfolding value_create
  NamesOnce-appended [] new once = (refl, tt)
  NamesOnce-appended (x ∷ ss) new once = (
    named-appended ss x.name ∙ ground (arith, once.0),
    NamesOnce-appended ss (ground arith) once.1,
  )

  -- An addition keeps one entry for each name.
  pub services_selection_add-NamesOnce :
      (ss : Selection) → NamesOnce ss → NamesOnce (services_selection_add ss name action flags)
  services_selection_add-NamesOnce ss once = elim (Option-cases (find_service name ss)) [
    | inl e ↦ subst NamesOnce (sym (add-new ss e)) (NamesOnce-appended ss e once)
    | inr (sd, e) ↦ subst NamesOnce (sym (add-known ss sd e)) (NamesOnce-updated ss once)
  ]

  -- Into a selection with one entry for each name, an addition merges: it or-s its flags into those of
  -- the entry of the name and takes its action, or makes the entry; the entries of all other names
  -- are found as before, and each name still has one entry. So no addition takes a block back.
  pub services_selection_add-Merges :
      (ss : Selection)
      → NamesOnce ss
      → NamesOnce (services_selection_add ss name action flags)
        × ((other : ℕ)
            → find_service other (services_selection_add ss name action flags) ≡ (
                if other == name
                then some (merged (find_service name ss) name action flags)
                else find_service other ss))
  services_selection_add-Merges ss once =
      (services_selection_add-NamesOnce ss once, services_selection_add-find ss)

  -- A name is in the selection if it was, or is added.
  pub services_selection_add-named :
      (ss : Selection) (other : ℕ)
      → named other (services_selection_add ss name action flags)
        ≡ (named other ss || (other == name))
  services_selection_add-named ss other = elim (Option-cases (find_service name ss)) [
    | inl e ↦ rw (add-new ss e) (named-appended ss other)
    | inr (sd, e) ↦
        let there : named name ss ≡ true = named-found name ss sd e in
        rw (add-known ss sd e) (
          named-updated ss other ∙ elim (Bool-cases (other == name)) [
            | inl same ↦
                let known : named other ss ≡ true =
                  ap (λ n. named n ss) (==→eq other name same) ∙ there in
                rw (same, known) refl
            | inr apart ↦ rw apart (ground arith)
          ])
  ]
