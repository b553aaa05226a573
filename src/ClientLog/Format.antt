-- ===== src/ClientLog/Format.antt =====
-- franzadapter/client_logger.go, formatClientLog: the loop over indices against the keyvals as entries.
use llingr_adapter_franz.Prelude.{
  ℕ, zero, suc, ◌+◌, ◌≤◌, ltb, length, GoString, text, List, [], ◌∷◌, ◌++◌, ◌≡◌, refl, ap, ◌∙◌,
  arith, true,
}
use llingr_adapter_franz.ClientLog.{at, write_keyvals, format_client_log}

any_left : (n : ℕ) → ltb 0 (suc n) ≡ true
any_left n = ground arith

pub data Entry {ℓ} (A : Type ℓ) : Type ℓ where
  pair : (key value : A) → Entry A
  lone : (key : A) → Entry A

module _ {ℓ} {A : Type ℓ} where
  abbrev pub entries : List A → List (Entry A)
  entries [] = []
  entries (k ∷ []) = lone k ∷ []
  entries (k ∷ v ∷ rest) = pair k v ∷ entries rest

  -- Where the list `xs` continues from the index `i`: with `rest`.
  abbrev ContinuesAs : ℕ → List A → List A → Type ℓ
  ContinuesAs i xs rest = (length xs ≡ i + length rest) × ((n : ℕ) → at (i + n) xs ≡ at n rest)

  skip_two :
      (i : ℕ) (xs : List A) (k v : A) (rest : List A)
      → ContinuesAs i xs (k ∷ v ∷ rest)
      → ContinuesAs (2 + i) xs rest
  unfolding at
  skip_two i xs k v rest h =
      (omega (arith, h.0), λ n. ap (λ m. at m xs) (omega arith) ∙ h.1 (suc (suc n)))

  whole : (xs : List A) → ContinuesAs 0 xs xs
  whole xs = (omega arith, λ n. ap (λ m. at m xs) (omega arith))

  module _ (render : A → GoString) where
    abbrev pub show_entry : Entry A → GoString
    show_entry (pair k v) = text " " ++ (render k ++ (text "=" ++ render v))
    show_entry (lone k) = text " " ++ render k

    abbrev pub show_entries : List (Entry A) → GoString
    show_entries [] = []
    show_entries (e ∷ es) = show_entry e ++ show_entries es

    write_keyvals-end :
        (fuel i : ℕ) (xs : List A) → length xs ≤ i → write_keyvals render fuel i xs ≡ []
    unfolding write_keyvals
    write_keyvals-end zero i xs h = refl
    write_keyvals-end (suc fuel) i xs h = ground arith

    write_keyvals-later :
        (fuel i : ℕ) (xs rest : List A)
        → 1 ≤ i
        → ContinuesAs i xs rest
        → length rest ≤ fuel
        → write_keyvals render fuel i xs ≡ show_entries (entries rest)
    unfolding write_keyvals
    write_keyvals-later fuel i xs [] h from enough =
        write_keyvals-end fuel i xs (omega (arith, from.0))
    write_keyvals-later zero i xs (x ∷ rest) h from enough = absurd (omega arith)
    write_keyvals-later (suc fuel) i xs (k ∷ []) h from enough = ground (
      arith,
      write_keyvals-end fuel (2 + i) xs (omega (arith, from.0)),
      from.0,
      from.1 0,
      from.1 1,
    )
    write_keyvals-later (suc fuel) i xs (k ∷ v ∷ rest) h from enough =
        let later =
          write_keyvals-later fuel (2 + i) xs rest (omega arith) (skip_two i xs k v rest from)
            (omega arith) in
        ground (arith, later, from.0, from.1 0, from.1 1)

    abbrev pub show_tail : List (Entry A) → GoString
    show_tail [] = []
    show_tail (e ∷ es) = text ";" ++ show_entries (e ∷ es)

    -- For every message and every list of keyvals, the loop over indices writes the prefix, the
    -- message and, behind one semicolon if there are any, the keyvals taken two by two: each pair
    -- as " k=v", and a last key that has no value as " k".
    pub format_client_log-entries :
        (msg : GoString) (keyvals : List A)
        → format_client_log render msg keyvals
          ≡ text "franz-go: " ++ (msg ++ show_tail (entries keyvals))
    unfolding format_client_log write_keyvals at
    format_client_log-entries msg [] = refl
    format_client_log-entries msg (k ∷ []) = ground arith
    format_client_log-entries msg (k ∷ v ∷ rest) =
        let xs = k ∷ v ∷ rest in
        let later =
          write_keyvals-later (suc (length rest)) 2 xs rest (omega arith)
            (skip_two 0 xs k v rest (whole xs)) (omega arith) in
        rw (later, any_left (suc (length rest)))
