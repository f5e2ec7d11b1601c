-- ===== src/Admin/Redaction.antt =====
-- redactAuditValue of admin.service.ts, through which every audited row goes.
use egypt_supply_chain_visib.Base.{
  ℕ, ◌≡◌, refl, ap, ◌⊎◌, inl, inr, Bool, true, false, ◌||◌, Bool-cases, contains, String,
  if◌then◌else◌,
}

-- A value as the audit log is given it. A Date is an object without entries of its own.
mutual
  pub data Redactable : Type 0 where
    null_value : Redactable
    boolean : Bool → Redactable
    number : ℕ → Redactable
    string : String → Redactable
    date : ℕ → Redactable
    array : AuditItems → Redactable
    object : AuditEntries → Redactable

  pub data AuditItems : Type 0 where
    no_item : AuditItems
    item : Redactable → AuditItems → AuditItems

  pub data AuditEntries : Type 0 where
    no_entry : AuditEntries
    entry : String → Redactable → AuditEntries → AuditEntries

module _ (lower : String → String) where
  -- `/password|token|secret|hash/i`
  unfoldable pub is_secret : String → Bool
  is_secret key =
      contains (lower key) "password"
      || contains (lower key) "token"
      || contains (lower key) "secret"
      || contains (lower key) "hash"

  unfoldable mutual
    pub redact : Redactable → Redactable
    redact null_value = null_value
    redact (boolean b) = boolean b
    redact (number n) = number n
    redact (string t) = string t
    redact (date t) = object no_entry
    redact (array items) = array (redact_items items)
    redact (object entries) = object (redact_entries entries)

    pub redact_items : AuditItems → AuditItems
    redact_items no_item = no_item
    redact_items (item value items) = item (redact value) (redact_items items)

    pub redact_entries : AuditEntries → AuditEntries
    redact_entries no_entry = no_entry
    redact_entries (entry key value entries) =
        entry key (if is_secret key then string "[REDACTED]" else redact value)
          (redact_entries entries)

  -- No date, and under a secret key nothing but the mark, at any depth.
  unfoldable mutual
    pub IsRedacted : Redactable → Type 0
    IsRedacted (date t) = ⊥
    IsRedacted (array items) = IsRedactedItems items
    IsRedacted (object entries) = IsRedactedEntries entries
    IsRedacted _ = Unit {0}

    pub IsRedactedItems : AuditItems → Type 0
    IsRedactedItems no_item = Unit {0}
    IsRedactedItems (item value items) = IsRedacted value × IsRedactedItems items

    pub IsRedactedEntries : AuditEntries → Type 0
    IsRedactedEntries no_entry = Unit {0}
    IsRedactedEntries (entry key value entries) =
        (((is_secret key ≡ true) × (value ≡ string "[REDACTED]"))
          ⊎ ((is_secret key ≡ false) × IsRedacted value))
        × IsRedactedEntries entries

  mutual
    unfolding redact IsRedacted

    redacted : (v : Redactable) → IsRedacted (redact v)
    redacted null_value = tt
    redacted (boolean b) = tt
    redacted (number n) = tt
    redacted (string t) = tt
    redacted (date t) = tt
    redacted (array items) = redacted_items items
    redacted (object entries) = redacted_entries entries

    redacted_items : (items : AuditItems) → IsRedactedItems (redact_items items)
    redacted_items no_item = tt
    redacted_items (item value items) = (redacted value, redacted_items items)

    redacted_entries : (entries : AuditEntries) → IsRedactedEntries (redact_entries entries)
    redacted_entries no_entry = tt
    redacted_entries (entry key value entries) =
        let inner = redacted value in
        let others = redacted_entries entries in
        elim (Bool-cases (is_secret key)) [
          | inl secret ↦ (inl (secret, rw secret refl), others)
          | inr plain ↦ (inr (plain, rw plain inner), others)
        ]

  mutual
    unfolding redact IsRedacted

    kept : (v : Redactable) → IsRedacted v → redact v ≡ v
    kept null_value h = refl
    kept (boolean b) h = refl
    kept (number n) h = refl
    kept (string t) h = refl
    kept (date t) h = absurd h
    kept (array items) h = ap array (kept_items items h)
    kept (object entries) h = ap object (kept_entries entries h)

    kept_items : (items : AuditItems) → IsRedactedItems items → redact_items items ≡ items
    kept_items no_item h = refl
    kept_items (item value items) (one, more) =
        let first = kept value one in let rest = kept_items items more in rw (first, rest) refl

    kept_entries :
        (entries : AuditEntries) → IsRedactedEntries entries → redact_entries entries ≡ entries
    kept_entries no_entry h = refl
    kept_entries (entry key value entries) (inl (secret, mark), more) =
        let rest = kept_entries entries more in rw (secret, rest, mark) refl
    kept_entries (entry key value entries) (inr (plain, one), more) =
        let first = kept value one in
        let rest = kept_entries entries more in rw (plain, first, rest) refl

  -- Whatever is handed over, the redacted value has no date in it, and nothing but the mark under a
  -- key that matches the pattern, at any depth; and a value that is so is left as it is, so that to
  -- redact again changes nothing.
  pub redact-IsRedacted :
      (v : Redactable)
      → IsRedacted (redact v) × (redact (redact v) ≡ redact v) × (IsRedacted v → redact v ≡ v)
  redact-IsRedacted v = (redacted v, kept (redact v) (redacted v), kept v)
