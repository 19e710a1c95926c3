-- ===== src/Network/Proxy/Headers.antt =====
-- The copies of a header are the header itself.
use mathlib.Core.List.{append_assoc, append-nil}
use dstest.Prelude.{◌≡◌, ◌≢◌, ◌∙◌, refl, sym, ap, false, List, [], ◌∷◌, ◌++◌, All, All-append}
use dstest.Prelude.Text.{Text, text_eq, text_eq_iff}
use dstest.Network.Proxy.{Header, assign_header, add_header, copy_header, add_values, add_all}

-- The name is not in the header.
abbrev Fresh : Text → Header → Type 0
Fresh h header = All (λ (entry : Text × List Text). text_eq entry.0 h ≡ false) header

-- The header is a map: its names are different.
abbrev pub IsMap : Header → Type 0
IsMap [] = Unit
IsMap ((h, values) ∷ rest) =
    All (λ (entry : Text × List Text). text_eq h entry.0 ≡ false) rest × IsMap rest

AllFresh : Header → Header → Type 0
AllFresh header rest = All (λ (entry : Text × List Text). Fresh entry.0 header) rest

Fresh-last :
    (h : Text) (values : List Text) (header rest : Header)
    → AllFresh header rest
    → All (λ (entry : Text × List Text). text_eq h entry.0 ≡ false) rest
    → AllFresh (header ++ (h, values) ∷ []) rest
unfolding AllFresh
Fresh-last h values header [] fresh other = tt
Fresh-last h values header ((k, w) ∷ rest) fresh other = (
  All-append (λ (entry : Text × List Text). text_eq entry.0 k ≡ false) header ((h, values) ∷ [])
      fresh.0 (other.0, tt),
  Fresh-last h values header rest fresh.1 other.1,
)

assign-Fresh :
    (h : Text) (values : List Text) (header : Header)
    → Fresh h header
    → assign_header h values header ≡ header ++ (h, values) ∷ []
assign-Fresh h values [] fresh = refl
assign-Fresh h values ((k, w) ∷ header) fresh =
    rw (fresh.0) (ap (λ rest. (k, w) ∷ rest) (assign-Fresh h values header fresh.1))

add-Fresh :
    (h value : Text) (header : Header)
    → Fresh h header
    → add_header h value header ≡ header ++ (h, value ∷ []) ∷ []
add-Fresh h value [] fresh = refl
add-Fresh h value ((k, w) ∷ header) fresh =
    rw (fresh.0) (ap (λ rest. (k, w) ∷ rest) (add-Fresh h value header fresh.1))

add_last :
    (h value : Text) (values : List Text) (header : Header)
    → Fresh h header
    → add_header h value (header ++ (h, values) ∷ []) ≡ header ++ (h, values ++ value ∷ []) ∷ []
add_last h value values [] fresh = rw ((text_eq_iff h h).1 refl) refl
add_last h value values ((k, w) ∷ header) fresh =
    rw (fresh.0) (ap (λ rest. (k, w) ∷ rest) (add_last h value values header fresh.1))

copy_header_rest :
    (rest header : Header)
    → AllFresh header rest
    → IsMap rest
    → copy_header rest header ≡ header ++ rest
unfolding copy_header AllFresh
copy_header_rest [] header fresh is_map = sym (append-nil header)
copy_header_rest ((h, values) ∷ rest) header fresh is_map =
    rw (assign-Fresh h values header fresh.0) (
      copy_header_rest rest (header ++ (h, values) ∷ [])
        (Fresh-last h values header rest fresh.1 is_map.0) is_map.1
      ∙ append_assoc header ((h, values) ∷ []) rest)

none_fresh : (rest : Header) → AllFresh [] rest
unfolding AllFresh
none_fresh [] = tt
none_fresh (entry ∷ rest) = (tt, none_fresh rest)

pub copy_header_same : (header : Header) → IsMap header → copy_header header [] ≡ header
copy_header_same header is_map = copy_header_rest header [] (none_fresh header) is_map

module _ (canonical : Text → Text) where
  -- The names are in canonical form, and each has a value.
  abbrev pub IsParsed : Header → Type 0
  IsParsed header =
      All (λ (entry : Text × List Text). (canonical entry.0 ≡ entry.0) × (entry.1 ≢ [])) header

  add_values_last :
      (h : Text) (values last : List Text) (header : Header)
      → canonical h ≡ h
      → Fresh h header
      → add_values canonical h last (header ++ (h, values) ∷ [])
        ≡ header ++ (h, values ++ last) ∷ []
  unfolding add_values
  add_values_last h values [] header is_canonical fresh =
      ap (λ l. header ++ (h, l) ∷ []) (sym (append-nil values))
  add_values_last h values (value ∷ last) header is_canonical fresh =
      rw (is_canonical, add_last h value values header fresh)
        (add_values_last h (values ++ value ∷ []) last header is_canonical fresh
          ∙ ap (λ l. header ++ (h, l) ∷ []) (append_assoc values (value ∷ []) last))

  add_values-Fresh :
      (h : Text) (values : List Text) (header : Header)
      → canonical h ≡ h
      → values ≢ []
      → Fresh h header
      → add_values canonical h values header ≡ header ++ (h, values) ∷ []
  unfolding add_values
  add_values-Fresh h [] header is_canonical some_value fresh = absurd (some_value refl)
  add_values-Fresh h (value ∷ values) header is_canonical some_value fresh =
      rw (is_canonical, add-Fresh h value header fresh)
        (add_values_last h (value ∷ []) values header is_canonical fresh)

  add_all_rest :
      (rest header : Header)
      → AllFresh header rest
      → IsMap rest
      → IsParsed rest
      → add_all canonical rest header ≡ header ++ rest
  unfolding add_all AllFresh
  add_all_rest [] header fresh is_map parsed = sym (append-nil header)
  add_all_rest ((h, values) ∷ rest) header fresh is_map parsed =
      rw (add_values-Fresh h values header parsed.0.0 parsed.0.1 fresh.0) (
        add_all_rest rest (header ++ (h, values) ∷ [])
          (Fresh-last h values header rest fresh.1 is_map.0) is_map.1 parsed.1
        ∙ append_assoc header ((h, values) ∷ []) rest)

  pub add_all_same :
      (header : Header) → IsMap header → IsParsed header → add_all canonical header [] ≡ header
  add_all_same header is_map parsed = add_all_rest header [] (none_fresh header) is_map parsed
