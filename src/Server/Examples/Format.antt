-- ===== src/Server/Examples/Format.antt =====
-- A way to write the buffer of a difference, and to read it again: a number in four bytes, a list with a
-- byte in front of each item and behind the last, and a string that is refused unless it is UTF-8.
use haraka_engine.Base.{
  ℕ, zero, suc, ◌<◌, ◌≡◌, refl, sym, ap, ◌∙◌, Option, none, some, List, [], ◌∷◌, ◌++◌, append-nil,
  All, length, length-append, arith, true, false, if◌then◌else◌,
}
use mathlib.Core.List.{append_assoc}
use haraka_engine.Base.Order.{Bytes}
use haraka_engine.Base.Map.{Map, Entries}
use haraka_engine.Core.Types.Template.{word_bytes, bytes_word}
use haraka_engine.Core.Types.Wire.{bytes_word-word_bytes}
use haraka_engine.Core.Object.{ObjectBuffer}
use haraka_engine.Core.Delta.{DeltaBuffer}
use haraka_engine.Server.Controller.Messages.{
  is_utf8, IsText, IsUint32, AreTexts, IsObjectMessage, IsMessage,
}

-- What fits is read again as it was written.
pub record Format (A : Type 0) (Fits : A → Type 0) : Type 0 where
  pub put : A → Bytes
  pub get : Bytes → Option (A × Bytes)
  pub back : (a : A) (rest : Bytes) → Fits a → get (put a ++ rest) ≡ some (a, rest)

abbrev take_word : Bytes → Option (ℕ × Bytes)
take_word (a ∷ b ∷ c ∷ d ∷ rest) = some (bytes_word (a ∷ b ∷ c ∷ d ∷ []), rest)
take_word _ = none

abbrev take_byte : Bytes → Option (ℕ × Bytes)
take_byte [] = none
take_byte (b ∷ rest) = some (b, rest)

abbrev number : Format ℕ IsUint32
number = record {
  put = word_bytes;
  get = take_word;
  back = λ n rest h. ap (λ m. some (m, rest)) (bytes_word-word_bytes n [] h);
}

abbrev byte : Format ℕ (λ n. Unit)
byte = record { put = λ n. n ∷ []; get = take_byte; back = λ n rest h. refl }

module _ {A B : Type 0} {P : A → Type 0} {Q : B → Type 0} (f : Format A P) (g : Format B Q) where
  abbrev pair : Format (A × B) (λ e. P e.0 × Q e.1)
  pair = record {
    put = λ e. f.put e.0 ++ g.put e.1;
    get = λ bytes. elim (f.get bytes) [
      | none ↦ none
      | some (a, rest) ↦ elim (g.get rest) [ none ↦ none | some (b, end) ↦ some ((a, b), end) ]
    ];
    back = λ e rest h.
        rw (append_assoc (f.put e.0) (g.put e.1) rest, f.back e.0 _ h.0, g.back e.1 _ h.1) refl;
  }

module _ {A B : Type 0} {P : A → Type 0} {Q : B → Type 0} (f : Format A P) (to : A → B) (of : B → A)
    (same : (b : B) → to (of b) ≡ b) (fits : (b : B) → Q b → P (of b)) where
  abbrev through : Format B Q
  through = record {
    put = λ b. f.put (of b);
    get = λ bytes. elim (f.get bytes) [ none ↦ none | some (a, rest) ↦ some (to a, rest) ];
    back = λ b rest h. rw (f.back (of b) rest (fits b h), same b) refl;
  }

module _ {A : Type 0} {P : A → Type 0} (f : Format A P) where
  abbrev put_all : List A → Bytes
  put_all [] = 0 ∷ []
  put_all (a ∷ xs) = 1 ∷ f.put a ++ put_all xs

  abbrev get_all : ℕ → Bytes → Option (List A × Bytes)
  get_all zero bytes = none
  get_all (suc n) [] = none
  get_all (suc n) (zero ∷ bytes) = some ([], bytes)
  get_all (suc n) (suc mark ∷ bytes) = elim (f.get bytes) [
    | none ↦ none
    | some (a, rest) ↦ elim (get_all n rest) [ none ↦ none | some (xs, end) ↦ some (a ∷ xs, end) ]
  ]

  pub length-put_all : (xs : List A) (rest : Bytes) → length xs < length (put_all xs ++ rest)
  length-put_all [] rest = omega arith
  length-put_all (a ∷ xs) rest = omega (
    arith,
    length-put_all xs rest,
    length-append (f.put a) (put_all xs ++ rest),
    ap length (append_assoc (f.put a) (put_all xs) rest),
  )

  pub get_all-put_all :
      (xs : List A) (rest : Bytes) (n : ℕ)
      → All P xs
      → length xs < n
      → get_all n (put_all xs ++ rest) ≡ some (xs, rest)
  get_all-put_all xs rest zero h few = absurd (omega (arith, few))
  get_all-put_all [] rest (suc n) h few = refl
  get_all-put_all (a ∷ xs) rest (suc n) h few =
      rw
        (
          append_assoc (f.put a) (put_all xs) rest,
          f.back a (put_all xs ++ rest) h.0,
          get_all-put_all xs rest n h.1 (omega (arith, few)),
        )
        refl

  abbrev list : Format (List A) (All P)
  list = record {
    put = put_all;
    get = λ bytes. get_all (length bytes) bytes;
    back = λ xs rest h. get_all-put_all xs rest _ h (length-put_all xs rest);
  }

pub any_bytes : (bytes : Bytes) → All {0, 0} (λ n. Unit) bytes
any_bytes [] = tt
any_bytes (b ∷ bytes) = (tt, any_bytes bytes)

-- A string; one that is not UTF-8 is refused.
abbrev string : Format Bytes IsText
string = record {
  put = (list byte).put;
  get = λ bytes. elim ((list byte).get bytes) [
    | none ↦ none
    | some (text, rest) ↦ if is_utf8 text then some (text, rest) else none
  ];
  back = λ text rest h. rw ((list byte).back text rest (any_bytes text), h) refl;
}

pub Entries-All :
    {K V : Type 0} (P : K → V → Type 0) (m : Map K V) → Entries P m → All (λ e. P e.0 e.1) m
Entries-All P [] h = tt
Entries-All P ((k, v) ∷ m) h = (h.0, Entries-All P m h.1)

abbrev values : Format (Map Bytes Bytes) AreTexts
values =
    through (list (pair string string)) (λ m. m) (λ m. m) (λ m. refl) λ m h. Entries-All _ m h.1

abbrev object : Format ObjectBuffer IsObjectMessage
object =
    through (pair number (pair string values))
      (λ e. record { id = e.0; type_name = e.1.0; values = e.1.1 })
      (λ o. (o.id, (o.type_name, o.values))) (λ o. refl) λ o h. (h.0, (h.1, h.2))

abbrev pub difference : Format DeltaBuffer IsMessage
difference =
    through
      (pair number
        (pair number (pair (list (pair number values)) (pair (list object) (list number)))))
      (λ e. record {
        prev_tick = e.0;
        next_tick = e.1.0;
        delta_objects = e.1.1.0;
        added_objects = e.1.1.1.0;
        deleted_objects = e.1.1.1.1;
      })
      (λ d. (d.prev_tick, (d.next_tick, (d.delta_objects, (d.added_objects, d.deleted_objects)))))
      (λ d. refl)
      λ d h. (
        h.prev_tick,
        (
          h.next_tick,
          (Entries-All _ d.delta_objects h.delta_objects, (h.added_objects, h.deleted_objects)),
        ),
      )

abbrev pub first : Option (DeltaBuffer × Bytes) → Option DeltaBuffer
first none = none
first (some (d, rest)) = some d

pub first-get : (d : DeltaBuffer) → IsMessage d → first (difference.get (difference.put d)) ≡ some d
first-get d h =
    ap first (ap difference.get (sym (append-nil (difference.put d))) ∙ difference.back d [] h)

-- The euro sign and an A are UTF-8; the four bytes of the `int` -2 are not.
euro_lem : is_utf8 (226 ∷ 130 ∷ 172 ∷ 65 ∷ []) ≡ true
euro_lem = refl

minus_two_lem : is_utf8 (254 ∷ 255 ∷ 255 ∷ 255 ∷ []) ≡ false
minus_two_lem = refl
