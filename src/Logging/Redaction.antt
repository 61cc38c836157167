-- ===== src/Logging/Redaction.antt =====
-- What reaches the handler under redactingHandler.
use vyomm.Prelude.{ℕ, String, ◌≡◌, false, List, [], ◌∷◌, map, All}
use vyomm.Logging.{
  key_service, key_mode, AttrValue, Attr, LogRecord, Wrapped, RedactingHandler, LogOptions,
  redact_attr, handle_record, with_attrs, with_group, new_logger, text, other,
}
use vyomm.Logging.Secrets.{has_match}
use vyomm.Logging.Secrets.Clean.{redact_string_lem}

-- What the wrapped handler is called with.
pub data Call (V : Type 0) : Type 0 where
  attrs_given : List (Attr V) → Call V
  group_opened : String → Call V
  record_written : LogRecord V → Call V

-- How a logger is derived from another one: by attributes, or by a group.
pub data Derivation (V : Type 0) : Type 0 where
  attrs_added : List (Attr V) → Derivation V
  group_added : String → Derivation V

module _ {V : Type 0} where
  -- A wrapped handler that only keeps its calls, the last one first.
  abbrev pub recorder : Wrapped V (List (Call V)) (List (Call V))
  recorder = record {
    give_attrs = λ calls attrs. attrs_given attrs ∷ calls;
    open_group = λ calls name. group_opened name ∷ calls;
    write = λ calls r. record_written r ∷ calls;
  }

  -- A text value has no match of the pattern.
  abbrev pub IsCleanAttr : Attr V → Type 0
  IsCleanAttr a = elim a.value [ text s ↦ has_match s ≡ false | other v ↦ Unit ]

  abbrev pub IsCleanCall : Call V → Type 0
  IsCleanCall (attrs_given attrs) = All IsCleanAttr attrs
  IsCleanCall (group_opened name) = Unit
  IsCleanCall (record_written r) = (has_match r.message ≡ false) × All IsCleanAttr r.attrs

  module _ (to_lower : List ℕ → List ℕ) where
    abbrev pub derive :
        RedactingHandler (List (Call V)) → List (Derivation V) → RedactingHandler (List (Call V))
    derive h [] = h
    derive h (attrs_added attrs ∷ ds) = derive (with_attrs to_lower recorder h attrs) ds
    derive h (group_added name ∷ ds) = derive (with_group to_lower recorder h name) ds

    value-clean :
        (key : String) (v : AttrValue V)
        → IsCleanAttr (redact_attr to_lower record { key = key; value = v })
    unfolding redact_attr
    value-clean key (text s) = (redact_string_lem to_lower s).0
    value-clean key (other v) = tt

    redact_attr-clean : (a : Attr V) → IsCleanAttr (redact_attr to_lower a)
    redact_attr-clean a = value-clean a.key a.value

    redact_attrs-clean :
        (attrs : List (Attr V)) → All IsCleanAttr (map (redact_attr to_lower) attrs)
    redact_attrs-clean [] = tt
    redact_attrs-clean (a ∷ attrs) = (redact_attr-clean a, redact_attrs-clean attrs)

    derive-clean :
        (h : RedactingHandler (List (Call V))) (ds : List (Derivation V))
        → All IsCleanCall h.inner
        → All IsCleanCall (derive h ds).inner
    unfolding with_attrs with_group
    derive-clean h [] clean = clean
    derive-clean h (attrs_added attrs ∷ ds) clean =
        derive-clean (with_attrs to_lower recorder h attrs) ds (redact_attrs-clean attrs, clean)
    derive-clean h (group_added name ∷ ds) clean =
        derive-clean (with_group to_lower recorder h name) ds (tt, clean)

    -- Whatever attributes and groups a logger of `New` is derived with and whatever record is logged,
    -- no message and no text value that reaches the wrapped handler has a match of the pattern.
    pub handle_record-clean :
        (options : LogOptions) (ds : List (Derivation V)) (r : LogRecord V)
        → All IsCleanCall (
            handle_record to_lower recorder
              (derive (new_logger to_lower recorder (λ _. []) options) ds)
              r)
    unfolding handle_record new_logger with_attrs
    handle_record-clean options ds r = (
      ((redact_string_lem to_lower r.message).0, redact_attrs-clean r.attrs),
      derive-clean (new_logger to_lower recorder (λ _. []) options) ds (
        redact_attrs-clean (
            record { key = key_service; value = text options.service }
            ∷ record { key = key_mode; value = text options.mode }
            ∷ []),
        tt,
      ),
    )
