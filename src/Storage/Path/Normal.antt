-- ===== src/Storage/Path/Normal.antt =====
-- Paths of normal components: not empty, not "." or "..", and without a slash.
use mathlib.Core.List.{append_assoc, append-nil}
use opendebrid.Prelude.{
  ◌≡◌, refl, sym, ap, ◌∙◌, Bool, true, false, List, [], ◌∷◌, ◌++◌, Text, is_empty, All, ◌==◌,
  Bool-cases, inl, inr,
}
use opendebrid.Storage.Path.{
  split_from, split, print, print_relative, is_dot, is_dot_dot, go_up, step, steps, reverse_onto,
  components, printed, is_rooted, clean, join,
}

abbrev pub NoSlash : Text → Type 0
NoSlash s = All (λ c. (c == b'/') ≡ false) s

pub record IsNormal (p : Text) : Type 0 where
  pub no_slash : NoSlash p
  pub not_dot : is_dot p ≡ false
  pub not_dot_dot : is_dot_dot p ≡ false

abbrev pub AreNormal : List Text → Type 0
AreNormal ps = All IsNormal ps

NoSlash-append : (s t : Text) → NoSlash s → NoSlash t → NoSlash (s ++ t)
NoSlash-append [] t h k = k
NoSlash-append (c ∷ s) t h k = (h.0, NoSlash-append s t h.1 k)

split_from-NoSlash : (part s : Text) → NoSlash part → All NoSlash (split_from part s)
split_from-NoSlash part [] h = (h, tt)
split_from-NoSlash part (c ∷ s) h = elim (Bool-cases (c == b'/')) [
  | inl e ↦ rw e (h, split_from-NoSlash [] s tt)
  | inr e ↦ rw e (split_from-NoSlash (part ++ c ∷ []) s (NoSlash-append part (c ∷ []) h (e, tt)))
]

-- What a rooted path keeps is normal.
go_up-AreNormal : (ps : List Text) → AreNormal ps → AreNormal (go_up true ps)
go_up-AreNormal [] h = tt
go_up-AreNormal (p ∷ ps) h = rw (h.0.not_dot_dot) h.1

step-AreNormal : (ps : List Text) (p : Text) → NoSlash p → AreNormal ps → AreNormal (step true ps p)
step-AreNormal ps p n h = elim (Bool-cases (is_dot p)) [
  | inl e ↦ rw e h
  | inr e ↦ elim (Bool-cases (is_dot_dot p)) [
    | inl f ↦ rw (e, f) (go_up-AreNormal ps h)
    | inr f ↦ rw (e, f) (record { no_slash = n; not_dot = e; not_dot_dot = f }, h)
  ]
]

steps-AreNormal : (ps qs : List Text) → All NoSlash qs → AreNormal ps → AreNormal (steps true ps qs)
steps-AreNormal ps [] n h = h
steps-AreNormal ps (q ∷ qs) n h =
    steps-AreNormal (step true ps q) qs n.1 (step-AreNormal ps q n.0 h)

reverse_onto-AreNormal :
    (acc ps : List Text) → AreNormal acc → AreNormal ps → AreNormal (reverse_onto acc ps)
reverse_onto-AreNormal acc [] h k = h
reverse_onto-AreNormal acc (p ∷ ps) h k = reverse_onto-AreNormal (p ∷ acc) ps (k.0, h) k.1

pub components-AreNormal : (s : Text) → AreNormal (components true s)
components-AreNormal s =
    reverse_onto-AreNormal [] (steps true [] (split s)) tt
      (steps-AreNormal [] (split s) (split_from-NoSlash [] s tt) tt)

-- Splitting behind a component without a slash.
pub split_from-slash :
    (part p s : Text) → NoSlash p → split_from part (p ++ b'/' ∷ s) ≡ (part ++ p) ∷ split_from [] s
split_from-slash part [] s h = rw append-nil refl
split_from-slash part (c ∷ p) s h = rw h.0 (
    split_from-slash (part ++ c ∷ []) p s h.1
    ∙ ap (λ q. q ∷ split_from [] s) (append_assoc part (c ∷ []) p))

split_from-end : (part p : Text) → NoSlash p → split_from part p ≡ (part ++ p) ∷ []
split_from-end part [] h = rw append-nil refl
split_from-end part (c ∷ p) h =
    rw h.0 (split_from-end (part ++ c ∷ []) p h.1 ∙ ap (λ q. q ∷ []) (append_assoc part (c ∷ []) p))

-- A printed path splits into its components.
pub split-print :
    (p : Text) (ps : List Text) → NoSlash p → AreNormal ps → split (p ++ print ps) ≡ p ∷ ps
split-print p [] h k = rw append-nil (split_from-end [] p h)
split-print p (q ∷ qs) h k =
    split_from-slash [] p (q ++ print qs) h ∙ ap (λ r. p ∷ r) (split-print q qs k.0.no_slash k.1)

steps-normal :
    (rooted : Bool) (done ps : List Text)
    → AreNormal ps
    → steps rooted done ps ≡ reverse_onto done ps
steps-normal rooted done [] h = refl
steps-normal rooted done (p ∷ ps) h =
    rw (h.0.not_dot, h.0.not_dot_dot) (steps-normal rooted (p ∷ done) ps h.1)

reverse_onto-twice :
    (acc done ps : List Text)
    → reverse_onto acc (reverse_onto done ps) ≡ reverse_onto (ps ++ acc) done
reverse_onto-twice acc done [] = refl
reverse_onto-twice acc done (p ∷ ps) = reverse_onto-twice acc (p ∷ done) ps

-- Both reversals of normal components give them back.
settled :
    (rooted : Bool) (ps : List Text) → AreNormal ps → reverse_onto [] (steps rooted [] ps) ≡ ps
settled rooted ps h = rw (steps-normal rooted [] ps h) (reverse_onto-twice [] [] ps ∙ append-nil ps)

components-print :
    (p : Text) (ps : List Text) → AreNormal (p ∷ ps) → components true (print (p ∷ ps)) ≡ p ∷ ps
unfolding is_empty
components-print p ps h = rw (split-print p ps h.0.no_slash h.1) (settled true (p ∷ ps) h)

pub clean-rooted : (s : Text) → is_rooted s ≡ true → clean s ≡ printed true (components true s)
unfolding clean
clean-rooted s r = ap (λ b. printed b (components b s)) r

-- A rooted path of normal components is clean.
pub clean-print :
    (p : Text) (ps : List Text) → AreNormal (p ∷ ps) → clean (print (p ∷ ps)) ≡ print (p ∷ ps)
unfolding clean
clean-print p ps h = rw (components-print p ps h) refl

is_rooted-normal : (p s : Text) → IsNormal p → is_rooted (p ++ s) ≡ false
unfolding is_empty
is_rooted-normal [] s h = cc (h.not_dot)
is_rooted-normal (c ∷ p) s h = h.no_slash.0

-- So is a relative one.
pub clean-print_relative :
    (p : Text) (ps : List Text)
    → AreNormal (p ∷ ps)
    → clean (print_relative (p ∷ ps)) ≡ print_relative (p ∷ ps)
unfolding clean
clean-print_relative p ps h =
    rw (is_rooted-normal p (print ps) h.0)
      (rw (split-print p ps h.0.no_slash h.1) (rw (settled false (p ∷ ps) h) refl))

pub print-append : (ps qs : List Text) → print (ps ++ qs) ≡ print ps ++ print qs
print-append [] qs = refl
print-append (p ∷ ps) qs =
    ap (λ s. b'/' ∷ s)
      (ap (λ s. p ++ s) (print-append ps qs) ∙ sym (append_assoc p (print ps) (print qs)))

pub AreNormal-append : (ps qs : List Text) → AreNormal ps → AreNormal qs → AreNormal (ps ++ qs)
AreNormal-append [] qs h k = k
AreNormal-append (p ∷ ps) qs h k = (h.0, AreNormal-append ps qs h.1 k)

-- Joining a rooted path and a relative one, both normal, puts their components together.
pub join-print :
    (b : Text) (bs : List Text) (r : Text) (rs : List Text)
    → AreNormal (b ∷ bs)
    → AreNormal (r ∷ rs)
    → join (print (b ∷ bs)) (print_relative (r ∷ rs)) ≡ print (b ∷ bs ++ r ∷ rs)
unfolding join
join-print b bs r rs h k =
    let e : print (b ∷ bs) ++ b'/' ∷ print_relative (r ∷ rs) ≡ print (b ∷ (bs ++ r ∷ rs)) =
      sym (print-append (b ∷ bs) (r ∷ rs)) in
    ap clean e ∙ clean-print b (bs ++ r ∷ rs) (AreNormal-append (b ∷ bs) (r ∷ rs) h k)
