-- ===== src/Text/Words.antt =====
-- Fields and Join on words, and NormalizeHumanName.
use Prim.Native.Char.{Char}
use Prim.Native.String.{[] as ε, ◌∷◌ as ◌▹◌, ◌++◌ as ◌·◌}
use Prim.Native.String.append
use eastbay_overland_rally_p.Prelude.{
  String, Bool, true, false, List, [], ◌∷◌, ◌≡◌, refl, ap, ◌∙◌, All,
}
use eastbay_overland_rally_p.Text.{
  is_space, split_words, add_char, push_word, fields, join, normalize_human_name,
}

-- No character of the text is a space.
abbrev pub NoSpace : String → Type 0
NoSpace ε = Unit
NoSpace (c ▹ s) = (is_space c ≡ false) × NoSpace s

-- A word: a text that is not empty and holds no space.
abbrev pub IsWord : String → Type 0
IsWord ε = ⊥
IsWord (c ▹ s) = (is_space c ≡ false) × NoSpace s

push_word-IsWord :
    (w : String) (ws : List String) → NoSpace w → All IsWord ws → All IsWord (push_word w ws)
push_word-IsWord ε ws h hs = hs
push_word-IsWord (c ▹ w) ws h hs = (h, hs)

add_char-IsWord :
    (b : Bool) (c : Char) (w : String) (ws : List String)
    → is_space c ≡ b
    → NoSpace w
    → All IsWord ws
    → NoSpace (add_char b c (w, ws)).0 × All IsWord (add_char b c (w, ws)).1
add_char-IsWord true c w ws e h hs = (tt, push_word-IsWord w ws h hs)
add_char-IsWord false c w ws e h hs = ((e, h), hs)

split_words-IsWord : (s : String) → NoSpace (split_words s).0 × All IsWord (split_words s).1
unfolding split_words
split_words-IsWord ε = (tt, tt)
split_words-IsWord (c ▹ s) =
    let (h, hs) = split_words-IsWord s in add_char-IsWord (is_space c) c _ _ refl h hs

-- Every field is a word.
pub fields-IsWord : (s : String) → All IsWord (fields s)
unfolding fields
fields-IsWord s =
    let (h, hs) = split_words-IsWord s in push_word-IsWord (split_words s).0 (split_words s).1 h hs

split_words-cons :
    (c : Char) (s : String) → split_words (c ▹ s) ≡ add_char (is_space c) c (split_words s)
unfolding split_words
split_words-cons c s = refl

-- A text without spaces goes to the word in front.
split_words-append :
    (w s : String) → NoSpace w → split_words (w · s) ≡ (w · (split_words s).0, (split_words s).1)
split_words-append ε s h = simp append.nil
split_words-append (c ▹ w) s h =
    rw (append.cons c w s, append.cons c w (split_words s).0, split_words-cons c (w · s), h.0)
      (rw (split_words-append w s h.1))

append-nil : (s : String) → s · ε ≡ s
append-nil ε = append.nil ε
append-nil (c ▹ s) = append.cons c s ε ∙ ap (◌▹◌ c) (append-nil s)

split_words-blank : (s : String) → split_words (" " · s) ≡ (ε, fields s)
unfolding fields is_space
split_words-blank s = rw (append.cons " " ε s, append.nil s) (split_words-cons " " s)

fields-word : (w s : String) → IsWord w → fields (w · " " · s) ≡ w ∷ fields s
fields-word ε s h = elim h [ ]
fields-word (c ▹ w) s h =
    unfold fields in
    rw (split_words-append (c ▹ w) (" " · s) h, split_words-blank s, append-nil (c ▹ w)) refl

split_words-word : (w : String) → NoSpace w → split_words w ≡ (w, [])
unfolding split_words
split_words-word w h = rw append-nil at (split_words-append w ε h)

fields-single : (w : String) → IsWord w → fields w ≡ w ∷ []
fields-single ε h = elim h [ ]
fields-single (c ▹ w) h = unfold fields in rw (split_words-word (c ▹ w) h)

-- The fields of joined words are the words.
pub fields-join : (ws : List String) → All IsWord ws → fields (join ws " ") ≡ ws
unfolding join
fields-join [] h = unfold fields in refl
fields-join (w ∷ []) h = fields-single w h.0
fields-join (w ∷ v ∷ ws) h = fields-word w _ h.0 ∙ ap (◌∷◌ w) (fields-join (v ∷ ws) h.1)

-- A normalized name is its own normal form.
pub normalize_human_name_idem :
    (s : String) → normalize_human_name (normalize_human_name s) ≡ normalize_human_name s
unfolding normalize_human_name
normalize_human_name_idem s = ap (λ ws. join ws " ") (fields-join (fields s) (fields-IsWord s))
