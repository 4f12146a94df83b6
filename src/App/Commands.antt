-- ===== src/App/Commands.antt =====
-- A command in the form that the comment above App::add gives.
use grit.Common.{
  leb, ◌==◌, eq_false, length, drop, length-append, take-append_length, drop-append_length, All,
  Text, substr, stoi, ℕ, ◌+◌, ◌-◌, ◌≤◌, ◌≡◌, refl, ◌≢◌, ◌⊎◌, inl, inr, true, false, ◌||◌, some, [],
  ◌∷◌, ◌++◌, append_assoc, append-nil, arith, ok,
}
use grit.Net.{create_es_msg}
use grit.Net.HeaderCmd.{k_add, k_change}
use grit.App.{to_space, word, cmd_of, parse}

abbrev pub IsWord : Text → Type 0
IsWord = All (λ c. c ≢ b' ')

to_space-append : (w t : Text) → IsWord w → to_space t ≡ 0 → to_space (w ++ t) ≡ length w
unfolding to_space
to_space-append [] t h e = e
to_space-append (c ∷ w) t h e = rw (eq_false h.0, to_space-append w t h.1 e) (omega arith)

leb_inside : {a b : ℕ} → a ≤ b → leb a b ≡ true
leb_inside h = ground arith

word-at :
    (str before w t : Text) (pos : ℕ)
    → str ≡ before ++ (w ++ t)
    → pos ≡ length before
    → IsWord w
    → to_space t ≡ 0
    → word str pos ≡ ok (w, pos + length w + 1)
unfolding word substr
word-at str before w t pos e at_pos plain end =
    let tail : drop pos (before ++ (w ++ t)) ≡ w ++ t =
      drop-append_length pos before (w ++ t) at_pos in
    let width : pos + length w - pos ≡ length w = omega arith in
    let inside : pos ≤ length (before ++ (w ++ t)) = omega (arith, length-append before (w ++ t)) in
    rw
      (
        e,
        tail,
        to_space-append w t plain end,
        width,
        leb_inside inside,
        take-append_length (length w) w t refl,
      )
      refl

parse-words :
    (txid cmd typ : ℕ) (type digits key attr val str : Text) (n₁ n₂ n₃ n₄ n₅ : ℕ)
    → word str 0 ≡ ok (type, n₁)
    → word str n₁ ≡ ok (digits, n₂)
    → word str n₂ ≡ ok (key, n₃)
    → word str n₃ ≡ ok (attr, n₄)
    → word str n₄ ≡ ok (val, n₅)
    → cmd_of type ≡ some cmd
    → (cmd ≡ k_add) ⊎ (cmd ≡ k_change)
    → stoi digits ≡ ok typ
    → parse txid str ≡ ok (create_es_msg cmd txid false typ (some key) (some attr) (some val))
unfolding parse
parse-words txid cmd typ type digits key attr val str n₁ n₂ n₃ n₄ n₅ w₀ w₁ w₂ w₃ w₄ known valued
      number =
    let with_value : (cmd == k_add || cmd == k_change) ≡ true = elim valued [
      | inl e ↦ rw e refl
      | inr e ↦ rw e refl
    ] in
    rw (w₀, w₁, number, w₂, known, with_value, w₃, w₄) refl

-- `type digits key attr val`, separated by single spaces.
pub command : Text → Text → Text → Text → Text → Text
command type digits key attr val =
    type ++ (b' ' ∷ (digits ++ (b' ' ∷ (key ++ (b' ' ∷ (attr ++ (b' ' ∷ val)))))))

-- A command that adds or changes, of five words separated by single spaces, is read back whole: its
-- first word decides the command, its second word is the number that it stands for, and key,
-- attribute and value are those that were written.
pub parse-command :
    (txid cmd typ : ℕ) (type digits key attr val : Text)
    → IsWord type
    → IsWord digits
    → IsWord key
    → IsWord attr
    → IsWord val
    → cmd_of type ≡ some cmd
    → (cmd ≡ k_add) ⊎ (cmd ≡ k_change)
    → stoi digits ≡ ok typ
    → parse txid (command type digits key attr val)
      ≡ ok (create_es_msg cmd txid false typ (some key) (some attr) (some val))
unfolding command to_space
parse-command txid cmd typ type digits key attr val p₁ p₂ p₃ p₄ p₅ known valued number =
    let t₄ = b' ' ∷ val in
    let t₃ = b' ' ∷ (attr ++ t₄) in
    let t₂ = b' ' ∷ (key ++ t₃) in
    let t₁ = b' ' ∷ (digits ++ t₂) in
    let b₁ = type ++ (b' ' ∷ []) in
    let b₂ = b₁ ++ (digits ++ (b' ' ∷ [])) in
    let b₃ = b₂ ++ (key ++ (b' ' ∷ [])) in
    let b₄ = b₃ ++ (attr ++ (b' ' ∷ [])) in
    let n₁ = 0 + length type + 1 in
    let n₂ = n₁ + length digits + 1 in
    let n₃ = n₂ + length key + 1 in
    let n₄ = n₃ + length attr + 1 in
    let e₁ : type ++ t₁ ≡ b₁ ++ (digits ++ t₂) = simp append_assoc in
    let e₂ : type ++ t₁ ≡ b₂ ++ (key ++ t₃) = simp append_assoc in
    let e₃ : type ++ t₁ ≡ b₃ ++ (attr ++ t₄) = simp append_assoc in
    let e₄ : type ++ t₁ ≡ b₄ ++ (val ++ []) = simp (append_assoc, append-nil) in
    let l₁ : n₁ ≡ length b₁ = omega (arith, length-append type (b' ' ∷ [])) in
    let l₂ : n₂ ≡ length b₂ =
      omega
        (arith, l₁, length-append b₁ (digits ++ (b' ' ∷ [])), length-append digits (b' ' ∷ [])) in
    let l₃ : n₃ ≡ length b₃ =
      omega (arith, l₂, length-append b₂ (key ++ (b' ' ∷ [])), length-append key (b' ' ∷ [])) in
    let l₄ : n₄ ≡ length b₄ =
      omega (arith, l₃, length-append b₃ (attr ++ (b' ' ∷ [])), length-append attr (b' ' ∷ [])) in
    let w₀ = word-at (type ++ t₁) [] type t₁ 0 refl refl p₁ refl in
    let w₁ = word-at (type ++ t₁) b₁ digits t₂ n₁ e₁ l₁ p₂ refl in
    let w₂ = word-at (type ++ t₁) b₂ key t₃ n₂ e₂ l₂ p₃ refl in
    let w₃ = word-at (type ++ t₁) b₃ attr t₄ n₃ e₃ l₃ p₄ refl in
    let w₄ = word-at (type ++ t₁) b₄ val [] n₄ e₄ l₄ p₅ refl in
    parse-words txid cmd typ type digits key attr val (type ++ t₁) n₁ n₂ n₃ n₄ (n₄ + length val + 1)
      w₀ w₁ w₂ w₃ w₄ known valued number
