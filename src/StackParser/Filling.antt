-- ===== src/StackParser/Filling.antt =====
-- The loops of variableFillerHelper end: every replacement takes two opening braces away.
use newrr.Common.{
  ℕ, zero, suc, ◌≤◌, ◌<◌, ◌≡◌, refl, subst, inl, inr, Bool-cases, Option-cases, ◌++◌, length,
  Option, none, some, Text, text, lookup, Each, Each-insert, Each-lookup, arith,
}
use newrr.StackParser.Variables.{
  Match, Pattern, find_match, Filling, random_from, random_number_filler, random_character_filler,
  variable_filler, repeat, variable_filler_helper, generate_random_string, generate_random_number,
  number_pattern, character_pattern, variable_pattern, replaced, remembered, fill_in, is_random,
}
use newrr.StackParser.Braces.{opens, IsPlain, find_match-opens, char_at-opens, opens-three}

module _ {G : Type 0} (intn : ℕ → G → ℕ × G) where
  random_from-IsPlain :
      (charset : Text) (n : ℕ) (g : G) → IsPlain charset → IsPlain (random_from intn charset n g).0
  unfolding random_from
  random_from-IsPlain charset zero g h = refl
  random_from-IsPlain charset (suc n) g h =
      let i = intn (length charset) g in
      ground (arith, char_at-opens charset i.0 h, random_from-IsPlain charset n i.1 h)

  replaced-opens :
      (r : Pattern) (m : Match) (x : Filling G) (p : Text × G)
      → find_match r x.content ≡ some m
      → IsPlain p.0
      → opens (replaced intn m x p).content < opens x.content
  replaced-opens r m x p e h =
      let less : opens (m.before ++ p.0 ++ m.after) < opens x.content =
        omega (arith, find_match-opens r x.content m e, opens-three m.before p.0 m.after) in
      less

  -- A filling whose variables have no opening braces in their values.
  abbrev pub IsTame : Filling G → Type 0
  IsTame x = Each IsPlain x.mapping

  -- A filler takes opening braces away, and adds no values that have some.
  abbrev Shrinks : (Filling G → Option (Filling G)) → Type 0
  Shrinks filler =
      (x y : Filling G)
      → IsTame x
      → filler x ≡ some y
      → IsTame y × (opens y.content < opens x.content)

  reached :
      (k : ℕ) (y w : Filling G)
      → IsTame w
      → opens w.content < k
      → some w ≡ some y
      → IsTame y × (opens y.content < k)
  reached k y w t l e =
      let same : w ≡ y = cc in subst (λ z. IsTame z × (opens z.content < k)) same (t, l)

  random_number_filler-Shrinks : Shrinks (random_number_filler intn)
  random_number_filler-Shrinks x y h e = elim (Option-cases (find_match number_pattern x.content)) [
    | inl f ↦ absurd (let g = (rw (random_number_filler, f) at e) in cc)
    | inr (m, f) ↦
        let p = generate_random_number intn (length m.name) x.random in
        reached (opens x.content) y (replaced intn m x p) h
          (replaced-opens number_pattern m x p f
            (random_from-IsPlain (text "0123456789") (length m.name) x.random refl))
          (rw (random_number_filler, f) at e)
  ]

  abbrev letters : Text
  letters = text "abcdefghijklmnopqrstuvwxyz"

  random_character_filler-Shrinks : Shrinks (random_character_filler intn)
  random_character_filler-Shrinks x y h e =
      elim (Option-cases (find_match character_pattern x.content)) [
        | inl f ↦ absurd (let g = (rw (random_character_filler, f) at e) in cc)
        | inr (m, f) ↦
            let p = generate_random_string intn (length m.name) x.random in
            reached (opens x.content) y (replaced intn m x p) h
              (replaced-opens character_pattern m x p f
                (random_from-IsPlain letters (length m.name) x.random refl))
              (rw (random_character_filler, f) at e)
      ]

  fill_in-Shrinks :
      (m : Match) (x y : Filling G)
      → IsTame x
      → find_match variable_pattern x.content ≡ some m
      → fill_in intn m x (lookup m.name x.mapping) ≡ some y
      → IsTame y × (opens y.content < opens x.content)
  fill_in-Shrinks m x y h f e = elim (Option-cases (lookup m.name x.mapping)) [
    | inr (v, g) ↦
        reached (opens x.content) y (replaced intn m x (v, x.random)) h
          (replaced-opens variable_pattern m x (v, x.random) f
            (Each-lookup IsPlain m.name x.mapping g h))
          (rw g at e)
    | inl g ↦ elim (Bool-cases (is_random intn m.name)) [
      | inr b ↦ absurd (let q = (rw b at (rw g at e)) in cc)
      | inl b ↦
          let p = generate_random_string intn 16 x.random in
          let plain = random_from-IsPlain letters 16 x.random refl in
          reached (opens x.content) y (remembered intn m x p)
            (Each-insert IsPlain m.name p.0 x.mapping plain h)
            (replaced-opens variable_pattern m x p f plain) (rw b at (rw g at e))
    ]
  ]

  variable_filler-Shrinks : Shrinks (variable_filler intn)
  variable_filler-Shrinks x y h e = elim (Option-cases (find_match variable_pattern x.content)) [
    | inl f ↦ absurd (let g = (rw (variable_filler, f) at e) in cc)
    | inr (m, f) ↦ fill_in-Shrinks m x y h f (rw (variable_filler, f) at e)
  ]

  -- How a loop ends: at a filling on which its filler finds nothing to do.
  pub record Ended (filler : Filling G → Option (Filling G)) (o : Option (Filling G)) (k : ℕ)
      : Type 0 where
    pub last : Filling G
    pub returned : o ≡ some last
    pub nothing_left : filler last ≡ none
    pub tame : IsTame last
    pub no_more : opens last.content ≤ k

  repeat-Ended :
      (filler : Filling G → Option (Filling G))
      → Shrinks filler
      → (n : ℕ) (x : Filling G) → IsTame x
      → opens x.content < n
      → Ended filler (repeat intn n filler x) (opens x.content)
  unfolding repeat
  repeat-Ended filler k zero x h l = absurd (omega arith)
  repeat-Ended filler k (suc n) x h l = elim (Option-cases (filler x)) [
    | inl e ↦ record {
      last = x;
      returned = rw (repeat, e) refl;
      nothing_left = e;
      tame = h;
      no_more = omega arith;
    }
    | inr (y, e) ↦
        let s = k x y h e in
        let r = repeat-Ended filler k n y s.0 (omega (arith, s.1)) in
        record {
          last = r.last;
          returned = rw (repeat, e) r.returned;
          nothing_left = r.nothing_left;
          tame = r.tame;
          no_more = omega (arith, s.1, r.no_more);
        }
  ]

  -- If no value of the mapping has an opening brace, variableFillerHelper returns, once the loops
  -- may take one round more than the text has opening braces, and its result has no variable first
  -- that it could fill in.
  pub variable_filler_helper-Ended :
      (n : ℕ) (x : Filling G)
      → IsTame x
      → opens x.content < n
      → Ended (variable_filler intn) (variable_filler_helper intn n x) (opens x.content)
  unfolding variable_filler_helper mathlib.Core.Option.bind
  variable_filler_helper-Ended n x h l =
      let a = repeat-Ended (random_number_filler intn) random_number_filler-Shrinks n x h l in
      let b =
        repeat-Ended (random_character_filler intn) random_character_filler-Shrinks n a.last a.tame
          (omega (arith, a.no_more)) in
      let c =
        repeat-Ended (variable_filler intn) variable_filler-Shrinks n b.last b.tame
          (omega (arith, a.no_more, b.no_more)) in
      record {
        last = c.last;
        returned = rw a.returned (rw b.returned c.returned);
        nothing_left = c.nothing_left;
        tame = c.tame;
        no_more = omega (arith, a.no_more, b.no_more, c.no_more);
      }
