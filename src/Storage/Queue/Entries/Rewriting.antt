-- ===== src/Storage/Queue/Entries/Rewriting.antt =====
-- What writing an entry again does to the entries that are read.
use cke.Prelude.{
  String, ℕ, suc, ◌<◌, ◌≡◌, refl, sym, subst, ap, ◌∙◌, ◌≢◌, inl, inr, true, false, List, [], ◌∷◌,
  none, some, All, Memᴰ, Ordered, Bool-cases, Option-cases, ◌==◌, map, arith, if◌then◌else◌,
}
use cke.Reboot.BackOff.{int64_half}
use cke.Etcd.{Etcd, put}
use cke.Etcd.Laws.{IsLawful}
use cke.Storage.Keys.Order.{entry_key_inj}
use cke.Storage.Queue.{Queue, key_of}
use cke.Storage.Queue.Moves.{IsApart, IsQueue, get-put, get-put_other, entry_key-prefix}
use cke.Storage.Queue.Entries.{Earlier, Holds, Contents}
use cke.Storage.Queue.Entries.Changes.{
  Contents-of_members, Holds-transport, Holds-stored, key_apart,
}

module _ (E : Etcd) {A : Type 0} (q : Queue A) where
  abbrev pub replace : A → A → A
  replace r e = if q.index e == q.index r then r else e

  replace-index : (r e : A) → q.index (replace r e) ≡ q.index e
  replace-index r e = elim (Bool-cases (q.index e == q.index r)) [
    | inl t ↦ let p : q.index e ≡ q.index r = ground arith in rw t (sym p)
    | inr f ↦ rw f refl
  ]

  map-All :
      (r e : A) (rs : List A)
      → All (Earlier E q e) rs
      → All (Earlier E q (replace r e)) (map (replace r) rs)
  map-All r e [] a = tt
  map-All r e (u ∷ rs) a =
      (omega (arith, replace-index r e, replace-index r u, a.0), map-All r e rs a.1)

  map-Ordered :
      (r : A) (rs : List A) → Ordered (Earlier E q) rs → Ordered (Earlier E q) (map (replace r) rs)
  map-Ordered r [] a = tt
  map-Ordered r (e ∷ rs) a = (map-All r e rs a.0, map-Ordered r rs a.1)

  mem_map :
      (r u : A) (rs : List A)
      → Memᴰ u (map (replace r) rs)
      → (e : A) × Memᴰ e rs × (u ≡ replace r e)
  mem_map r u [] m = elim m [ ]
  mem_map r u (e ∷ rs) (Memᴰ.head p) = (e, Memᴰ.head refl, p)
  mem_map r u (e ∷ rs) (Memᴰ.tail m) = let x = mem_map r u rs m in (x.0, Memᴰ.tail x.1, x.2)

  map_mem : (r u e : A) (rs : List A) → Memᴰ e rs → u ≡ replace r e → Memᴰ u (map (replace r) rs)
  map_mem r u e [] m p = elim m [ ]
  map_mem r u e (t ∷ rs) (Memᴰ.head n) p = Memᴰ.head (p ∙ ap (replace r) n)
  map_mem r u e (t ∷ rs) (Memᴰ.tail m) p = Memᴰ.tail (map_mem r u e rs m p)

  module _ (L : IsLawful E) (apart : IsApart q) where
    put_Holds :
        (s : E.State) (r : A) (text : String)
        → q.index r < int64_half
        → q.codec.unmarshal text ≡ some r
        → Holds E q (E.write s (put (key_of E q (q.index r)) text ∷ [])) r
    put_Holds s r text small d = record {
      small = small;
      kv = record { value = text; mod_revision = suc (L.revision s) };
      found = get-put E q L apart s (key_of E q (q.index r)) text;
      decoded = d;
    }

    -- The entry that a key of a well-formed queue holds.
    held :
        (s : E.State) (i : ℕ)
        → i < int64_half
        → IsQueue E q s
        → E.get s (key_of E q i) ≢ none
        → (e : A) × Holds E q s e × (q.index e ≡ i)
    held s i b k h = elim (Option-cases (E.get s (key_of E q i))) [
      | inl none_there ↦ absurd (h none_there)
      | inr (kv, found) ↦
          let x = k.filled (key_of E q i) kv found (entry_key-prefix q.prefix i) in
          let n : x.number ≡ i = entry_key_inj q.prefix x.number i x.small b (sym x.is_key) in
          let e : q.index x.entry ≡ i = x.is_number ∙ n in
          (
            x.entry,
            record {
              small = subst (λ j. j < int64_half) (sym e) b;
              kv = kv;
              found = subst (λ j. E.get s (key_of E q j) ≡ some kv) (sym e) found;
              decoded = x.is_entry;
            },
            e,
          )
    ]

    pub rewrite-Contents :
        (s : E.State) (r : A) (text : String) (rs : List A)
        → q.index r < int64_half
        → IsQueue E q s
        → IsQueue E q (E.write s (put (key_of E q (q.index r)) text ∷ []))
        → E.get s (key_of E q (q.index r)) ≢ none
        → q.codec.unmarshal text ≡ some r
        → Contents E q s rs
        → Contents E q (E.write s (put (key_of E q (q.index r)) text ∷ [])) (map (replace r) rs)
    rewrite-Contents s r text rs small k k' existed d x =
        Contents-of_members E q L apart t (map (replace r) rs) k' (map-Ordered r rs x.ordered) (λ u.
          (
            λ m.
                let (e, i, p) = mem_map r u rs m in
                subst (Holds E q t) (sym p) (replaced e ((x.members e).0 i)),
            λ h. elim (Bool-cases (q.index u == q.index r)) [
              | inl same ↦
                  let (e, at, n) = held s (q.index r) small k existed in
                  map_mem r u e rs ((x.members e).1 at) (new u same h ∙ sym (is_replaced e n))
              | inr other ↦ map_mem r u u rs ((x.members u).1 (kept u other h)) (rw other refl)
            ],
          ))
      where
        t : E.State
        t = E.write s (put (key_of E q (q.index r)) text ∷ [])

        is_replaced : (e : A) → q.index e ≡ q.index r → replace r e ≡ r
        is_replaced e n = let y : (q.index e == q.index r) ≡ true = ground arith in rw y refl

        away :
            (u : A)
            → (q.index u == q.index r) ≡ false
            → q.index u < int64_half
            → E.get t (key_of E q (q.index u)) ≡ E.get s (key_of E q (q.index u))
        away u other b =
            get-put_other E q L apart s _ _ text
              (key_apart E q L apart u r b small (λ (p : q.index u ≡ q.index r). ground arith))

        kept : (u : A) → (q.index u == q.index r) ≡ false → Holds E q t u → Holds E q s u
        kept u other h = Holds-transport E q L apart t s u (sym (away u other h.small)) h

        new : (u : A) → (q.index u == q.index r) ≡ true → Holds E q t u → u ≡ r
        new u same h =
            let p : q.index u ≡ q.index r = ground arith in
            let at =
              subst
                (λ i.
                  E.get t (key_of E q i)
                  ≡ some (record { value = text; mod_revision = suc (L.revision s) }))
                (sym p) (get-put E q L apart s (key_of E q (q.index r)) text) in
            Holds-stored E q L apart t r u text (suc (L.revision s)) at d p h

        replaced : (e : A) → Holds E q s e → Holds E q t (replace r e)
        replaced e h = elim (Bool-cases (q.index e == q.index r)) [
          | inl same ↦ rw same (put_Holds s r text small d)
          | inr other ↦ rw other (Holds-transport E q L apart s t e (away e other h.small) h)
        ]
