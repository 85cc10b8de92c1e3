-- ===== src/ClientMain/Split.antt =====
-- split of src/client/main.cc against the text that its tokens make up, and the commands of a line.
use sqpkv.Prelude.{
  ℕ, ◌≡◌, refl, sym, ap, ◌∙◌, false, some, List, [], ◌∷◌, ◌++◌, append_assoc, append-nil, All, ◌==◌,
  ==_iff,
}
use sqpkv.Rocks.Keys.{is_prefix}
use sqpkv.ClientMain.{last_token, tokens, split, part, put, command_of, text_put}

-- The delimiter is not in the text.
abbrev Lacks : ℕ → List ℕ → Type 0
Lacks delimiter = All (λ c. (c == delimiter) ≡ false)

-- The tokens, each with the delimiter behind it.
pub terminated : ℕ → List (List ℕ) → List ℕ
terminated delimiter [] = []
terminated delimiter (p ∷ parts) = p ++ (delimiter ∷ terminated delimiter parts)

tokens-append :
    (delimiter : ℕ) (tok p rest : List ℕ)
    → Lacks delimiter p
    → tokens delimiter tok (p ++ rest) ≡ tokens delimiter (tok ++ p) rest
unfolding tokens
tokens-append delimiter tok [] rest h = rw append-nil
tokens-append delimiter tok (c ∷ p) rest h =
    rw (tokens, h.0) (tokens-append delimiter (tok ++ (c ∷ [])) p rest h.1 ∙ rw append_assoc refl)

tokens_at_delimiter :
    (delimiter : ℕ) (tok str : List ℕ)
    → tokens delimiter tok (delimiter ∷ str) ≡ tok ∷ tokens delimiter [] str
unfolding tokens
tokens_at_delimiter delimiter tok str = rw (tokens, (==_iff delimiter delimiter).1 refl) refl

tokens-terminated :
    (delimiter : ℕ) (parts : List (List ℕ)) (last : List ℕ)
    → All (Lacks delimiter) parts
    → Lacks delimiter last
    → tokens delimiter [] (terminated delimiter parts ++ last) ≡ parts ++ last_token last
unfolding terminated
tokens-terminated delimiter [] last h g =
    ap (tokens delimiter []) (sym (append-nil last))
    ∙ tokens-append delimiter [] last [] g
    ∙ (unfold tokens in refl)
tokens-terminated delimiter (p ∷ parts) last h g =
    ap (tokens delimiter []) (append_assoc p (delimiter ∷ terminated delimiter parts) last)
    ∙ tokens-append delimiter [] p (delimiter ∷ (terminated delimiter parts ++ last)) h.0
    ∙ tokens_at_delimiter delimiter p (terminated delimiter parts ++ last)
    ∙ ap (λ t. p ∷ t) (tokens-terminated delimiter parts last h.1 g)

-- A text that is tokens without the delimiter, each with the delimiter behind it, and a last text without
-- the delimiter, is split into these tokens, empty ones included, and the last text if it is not empty.
pub split-terminated :
    (delimiter : ℕ) (parts : List (List ℕ)) (last : List ℕ)
    → All (Lacks delimiter) parts
    → Lacks delimiter last
    → split (terminated delimiter parts ++ last) delimiter ≡ parts ++ last_token last
unfolding split
split-terminated = tokens-terminated

-- A line that begins with `put ` and goes on with a key and a value, neither with a blank, asks to put
-- that value: the value ends at the first blank, and what follows it in the line is dropped.
command_of-put :
    (key value rest : List ℕ)
    → Lacks b' ' key
    → Lacks b' ' value
    → command_of (text_put ++ (key ++ (b' ' ∷ (value ++ (b' ' ∷ rest))))) ≡ some (put key value)
unfolding command_of split part is_prefix
command_of-put key value rest h g = rw whole refl
  where
    behind : List ℕ
    behind = key ++ (b' ' ∷ (value ++ (b' ' ∷ rest)))

    whole :
        tokens b' ' [] (text_put ++ (key ++ (b' ' ∷ (value ++ (b' ' ∷ rest)))))
        ≡ (b'p' ∷ b'u' ∷ b't' ∷ []) ∷ key ∷ value ∷ tokens b' ' [] rest
    whole =
        tokens-append b' ' [] (b'p' ∷ b'u' ∷ b't' ∷ []) (b' ' ∷ behind) (refl, (refl, (refl, tt)))
        ∙ tokens_at_delimiter b' ' (b'p' ∷ b'u' ∷ b't' ∷ []) behind
        ∙ ap (λ (t : List (List ℕ)). (b'p' ∷ b'u' ∷ b't' ∷ []) ∷ t)
            (tokens-append b' ' [] key (b' ' ∷ (value ++ (b' ' ∷ rest))) h
              ∙ tokens_at_delimiter b' ' key (value ++ (b' ' ∷ rest))
              ∙ ap (λ (t : List (List ℕ)). key ∷ t)
                  (tokens-append b' ' [] value (b' ' ∷ rest) g
                    ∙ tokens_at_delimiter b' ' value rest))
