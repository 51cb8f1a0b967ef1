-- ===== src/Config/Lookup.antt =====
-- Writing a setting and looking it up (AqMD3_console/include/util/config.h).
use aq_md3_acquisition_conso.Common.{
  ℕ, ◌≡◌, ◌≢◌, refl, sym, ap, ◌∙◌, Bool, true, false, Option, none, some, List, [], ◌∷◌, ◌++◌,
  push_back, ◌==◌, if◌then◌else◌, All, append_assoc, append-nil, arith,
}
use mathlib.Core.Option.{none-ne-some}
use aq_md3_acquisition_conso.Config.{
  Text, eq_text, tokens_from, tokens, find, insert, insert_tokens, read_line, read_lines, read,
  get_value,
}

abbrev pub IsPlain : ℕ → Type 0
IsPlain c = c ≢ 61

pub eq_text_refl : (t : Text) → eq_text t t ≡ true
unfolding eq_text
eq_text_refl [] = refl
eq_text_refl (c ∷ cs) = ground (arith, eq_text_refl cs)

tokens_from-key :
    (tok key value : Text) (started : Bool)
    → All IsPlain key
    → tokens_from tok started (key ++ 61 ∷ value) ≡ (tok ++ key) ∷ tokens value
unfolding tokens_from tokens
tokens_from-key tok [] value started h =
    ap (λ t. t ∷ tokens_from [] false value) (sym (append-nil tok))
tokens_from-key tok (c ∷ key) value started h = ground (
  arith,
  tokens_from-key (push_back tok c) key value true h.1,
  ap (λ t. t ∷ tokens_from [] false value) (append_assoc tok (c ∷ []) key),
)

tokens_from-value :
    (tok value : Text) → All IsPlain value → tokens_from tok true value ≡ (tok ++ value) ∷ []
unfolding tokens_from
tokens_from-value tok [] h = ap (λ t. t ∷ []) (sym (append-nil tok))
tokens_from-value tok (c ∷ value) h = ground (
  arith,
  tokens_from-value (push_back tok c) value h.1,
  ap (λ (t : Text). t ∷ []) (append_assoc tok (c ∷ []) value),
)

tokens_whole : (d : ℕ) (ds : Text) → All IsPlain (d ∷ ds) → tokens (d ∷ ds) ≡ (d ∷ ds) ∷ []
unfolding tokens tokens_from
tokens_whole d ds h = ground (arith, tokens_from-value (d ∷ []) ds h.1)

find-push_back :
    (key v : Text) (m : List (Text × Text)) (entry : Text × Text)
    → find key m ≡ some v
    → find key (push_back m entry) ≡ some v
unfolding find
find-push_back key v [] entry h = absurd (none-ne-some v h)
find-push_back key v ((k, w) ∷ m) entry h = go (eq_text k key) (find-push_back key v m entry) h
  where
    go :
        (b : Bool)
        → (find key m ≡ some v → find key (push_back m entry) ≡ some v)
        → (if b then some w else find key m) ≡ some v
        → (if b then some w else find key (push_back m entry)) ≡ some v
    go true k e = e
    go false k e = k e

find-insert :
    (key v k w : Text) (m : List (Text × Text))
    → find key m ≡ some v
    → find key (insert k w m) ≡ some v
unfolding insert
find-insert key v k w m h = go (find k m)
  where
    go :
        (o : Option Text)
        → find key (elim o as (λ x. List (Text × Text)) [ none ↦ push_back m (k, w) | some u ↦ m ])
          ≡ some v
    go none = find-push_back key v m (k, w) h
    go (some u) = h

find-insert_tokens :
    (key v : Text) (toks : List Text) (m : List (Text × Text))
    → find key m ≡ some v
    → find key (insert_tokens toks m) ≡ some v
find-insert_tokens key v (k ∷ w ∷ []) m h = find-insert key v k w m h
find-insert_tokens key v [] m h = h
find-insert_tokens key v (k ∷ []) m h = h
find-insert_tokens key v (k ∷ w ∷ _ ∷ _) m h = h

find-read_line :
    (key v line : Text) (m : List (Text × Text))
    → find key m ≡ some v
    → find key (read_line line m) ≡ some v
unfolding read_line
find-read_line key v [] m h = h
find-read_line key v (c ∷ cs) m h = go (c == 35)
  where
    go : (b : Bool) → find key (if b then m else insert_tokens (tokens (c ∷ cs)) m) ≡ some v
    go true = h
    go false = find-insert_tokens key v (tokens (c ∷ cs)) m h

find-read_lines :
    (key v : Text) (lines : List Text) (m : List (Text × Text))
    → find key m ≡ some v
    → find key (read_lines lines m) ≡ some v
unfolding read_lines
find-read_lines key v [] m h = h
find-read_lines key v (line ∷ lines) m h =
    find-read_lines key v lines (read_line line m) (find-read_line key v line m h)

read_line-first :
    (c : ℕ) (cs : Text) (d : ℕ) (ds : Text)
    → All IsPlain (c ∷ cs)
    → All IsPlain (d ∷ ds)
    → c ≢ 35
    → find (c ∷ cs) (read_line ((c ∷ cs) ++ 61 ∷ d ∷ ds) []) ≡ some (d ∷ ds)
unfolding read_line find insert tokens
read_line-first c cs d ds k v not_comment =
    let toks : tokens ((c ∷ cs) ++ 61 ∷ d ∷ ds) ≡ (c ∷ cs) ∷ (d ∷ ds) ∷ [] =
      tokens_from-key [] (c ∷ cs) (d ∷ ds) false k ∙ ap (λ t. (c ∷ cs) ∷ t) (tokens_whole d ds v) in
    let open_line : (c == 35) ≡ false = ground arith in
    let here : find (c ∷ cs) ((c ∷ cs, d ∷ ds) ∷ []) ≡ some (d ∷ ds) =
      ap (λ (b : Bool). if b then some (d ∷ ds) else none) (eq_text_refl (c ∷ cs)) in
    ap
      (λ (b : Bool).
        find (c ∷ cs) (if b then [] else insert_tokens (tokens ((c ∷ cs) ++ 61 ∷ d ∷ ds)) []))
      open_line
    ∙ ap (λ t. find (c ∷ cs) (insert_tokens t [])) toks
    ∙ here

-- A key and its value, neither empty nor with a '=' in it, the key not a comment's, are read back from
-- the file's first line, whatever lines follow: a later line does not change a key.
pub get_value-read :
    (c : ℕ) (cs : Text) (d : ℕ) (ds : Text) (lines : List Text)
    → All IsPlain (c ∷ cs)
    → All IsPlain (d ∷ ds)
    → c ≢ 35
    → get_value (c ∷ cs) (read (some (((c ∷ cs) ++ 61 ∷ d ∷ ds) ∷ lines))) ≡ some (d ∷ ds)
unfolding get_value read read_lines
get_value-read c cs d ds lines k v not_comment =
    find-read_lines (c ∷ cs) (d ∷ ds) lines (read_line ((c ∷ cs) ++ 61 ∷ d ∷ ds) [])
      (read_line-first c cs d ds k v not_comment)
