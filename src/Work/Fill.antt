-- ===== src/Work/Fill.antt =====
-- A copy into the packets of a frame's rest succeeds where they have room for its bytes.
use ntr_hr.Base.{
  ℕ, zero, suc, ◌+◌, ◌-◌, ◌*◌, ◌≤◌, ◌<◌, ◌≡◌, Bool, true, List, [], ◌∷◌, ◌++◌, arith, refl, ap, ◌∙◌,
  inl, inr, leb, length, take, drop, length-append, length-take, length-drop, take-drop,
  append_assoc, All, All-append, Bool-cases,
}
use ntr_hr.Work.Terms.{Terms, Copied, copied, copy_from, later_hdr, copy_to_terms, ◌>>=◌}
use ntr_hr.Work.Gather.{
  hdr_len, length-later_hdr, joined, joined-extend, joined-fresh, HasHdr, HasHdr-fresh,
}

pub record IsFilled (size : ℕ) (v2 : Bool) (full : List (List ℕ)) (cur : List ℕ) : Type 0 where
  pub whole : All (λ p. length p ≡ size) full
  pub fits : length cur ≤ size
  pub has_hdr : HasHdr v2 full cur

-- The bytes for which there is room, with `room` more packets.
abbrev pub space : ℕ → Bool → ℕ → List ℕ → ℕ
space size v2 room cur = (size - length cur) + room * (size - hdr_len v2)

abbrev pub text : Bool → Terms → List ℕ
text v2 t = joined v2 (t.full ++ t.cur ∷ [])

-- `c` succeeds, appends `bytes` to what the packets had, and uses as much room.
pub record Appends (size : ℕ) (v2 : Bool) (t : Terms) (bytes : List ℕ) (c : Copied) : Type 0 where
  pub after : Terms
  pub ok : c ≡ copied after
  pub wrote : text v2 after ≡ text v2 t ++ bytes
  pub filled : IsFilled size v2 after.full after.cur
  pub pooled : after.room ≤ after.pool
  pub left : space size v2 after.room after.cur + length bytes ≡ space size v2 t.room t.cur
  pub slots : length after.full + after.room ≡ length t.full + t.room

HasHdr-append :
    (v2 : Bool) (full : List (List ℕ)) (cur bytes : List ℕ)
    → HasHdr v2 full cur
    → HasHdr v2 full (cur ++ bytes)
HasHdr-append v2 [] cur bytes h = tt
HasHdr-append v2 (p ∷ full) cur bytes h = omega (arith, length-append cur bytes)

module _ (size : ℕ) (v2 : Bool) (big : hdr_len v2 < size) where
  abbrev terms : ℕ → List (List ℕ) → List ℕ → ℕ → Terms
  terms room full cur pool = record { full = full; cur = cur; room = room; pool = pool }

  -- The bytes fit the packet that is being filled.
  here :
      (room : ℕ) (full : List (List ℕ)) (cur : List ℕ) (pool : ℕ) (bytes : List ℕ) (c : Copied)
      → IsFilled size v2 full cur
      → room ≤ pool
      → length bytes ≤ size - length cur
      → c ≡ copied (terms room full (cur ++ bytes) pool)
      → Appends size v2 (terms room full cur pool) bytes c
  here room full cur pool bytes c f enough fit e = record {
    after = terms room full (cur ++ bytes) pool;
    ok = e;
    wrote = joined-extend v2 full cur bytes f.has_hdr;
    filled = record {
      whole = f.whole;
      fits = omega (arith, length-append cur bytes, f.fits);
      has_hdr = HasHdr-append v2 full cur bytes f.has_hdr;
    };
    pooled = enough;
    left = omega (arith, length-append cur bytes);
    slots = refl;
  }

  -- The packet is filled up, and the rest goes to the next.
  next_filled :
      (full : List (List ℕ)) (cur bytes : List ℕ)
      → IsFilled size v2 full cur
      → size - length cur < length bytes
      → IsFilled size v2 (full ++ (cur ++ take (size - length cur) bytes) ∷ []) (later_hdr v2)
  next_filled full cur bytes f more = record {
    whole =
        All-append (λ p. length p ≡ size) full ((cur ++ take (size - length cur) bytes) ∷ [])
          f.whole
          (
            omega (
              arith,
              length-append cur (take (size - length cur) bytes),
              length-take (size - length cur) bytes,
              f.fits,
            ),
            tt,
          );
    fits = omega (arith, length-later_hdr v2);
    has_hdr = HasHdr-fresh v2 (full ++ (cur ++ take (size - length cur) bytes) ∷ []);
  }

  next_text :
      (full : List (List ℕ)) (cur bytes : List ℕ)
      → IsFilled size v2 full cur
      → joined v2 ((full ++ (cur ++ take (size - length cur) bytes) ∷ []) ++ later_hdr v2 ∷ [])
          ++ drop (size - length cur) bytes
        ≡ joined v2 (full ++ cur ∷ []) ++ bytes
  next_text full cur bytes f =
      rw
        (
          joined-fresh v2 full (cur ++ take (size - length cur) bytes),
          joined-extend v2 full cur (take (size - length cur) bytes) f.has_hdr,
          append_assoc,
        )
        (ap (λ t. joined v2 (full ++ cur ∷ []) ++ t) (take-drop (size - length cur) bytes))

  pub copy_from-Appends :
      (room : ℕ) (full : List (List ℕ)) (cur : List ℕ) (pool : ℕ) (bytes : List ℕ)
      → IsFilled size v2 full cur
      → room ≤ pool
      → length bytes ≤ space size v2 room cur
      → Appends size v2
          (terms room full cur pool)
          bytes
          (copy_from room size v2 full cur pool bytes)
  unfolding copy_from
  copy_from-Appends zero full cur pool bytes f enough fit =
      let e : leb (length bytes) (size - length cur) ≡ true = ground arith in
      here zero full cur pool bytes _ f enough (omega arith) (rw e refl)
  copy_from-Appends (suc room) full cur zero bytes f enough fit = absurd (omega arith)
  copy_from-Appends (suc room) full cur (suc pool) bytes f enough fit =
      elim (Bool-cases (leb (length bytes) (size - length cur))) [
        | inl e ↦
            here (suc room) full cur (suc pool) bytes _ f enough (ground (arith, e)) (rw e refl)
        | inr e ↦
            let more : size - length cur < length bytes = ground (arith, e) in
            let next = full ++ (cur ++ take (size - length cur) bytes) ∷ [] in
            let rest = drop (size - length cur) bytes in
            let room_lem : suc room * (size - hdr_len v2)
                ≡ size - hdr_len v2 + room * (size - hdr_len v2) =
              grind arith in
            let ih =
              copy_from-Appends room next (later_hdr v2) pool rest
                (next_filled full cur bytes f more) (omega arith)
                (omega
                  (arith, length-later_hdr v2, length-drop (size - length cur) bytes, room_lem)) in
            record {
              after = ih.after;
              ok = rw e ih.ok;
              wrote = ih.wrote ∙ next_text full cur bytes f;
              filled = ih.filled;
              pooled = ih.pooled;
              left = omega (
                arith,
                ih.left,
                length-later_hdr v2,
                length-drop (size - length cur) bytes,
                room_lem,
              );
              slots = omega (
                arith,
                ih.slots,
                length-append full ((cur ++ take (size - length cur) bytes) ∷ []),
              );
            }
      ]

  pub copy_to_terms-Appends :
      (t : Terms) (bytes : List ℕ)
      → IsFilled size v2 t.full t.cur
      → t.room ≤ t.pool
      → length bytes ≤ space size v2 t.room t.cur
      → Appends size v2 t bytes (copy_to_terms size v2 bytes t)
  unfolding copy_to_terms
  copy_to_terms-Appends t bytes f enough fit =
      copy_from-Appends t.room t.full t.cur t.pool bytes f enough fit

  -- One copy after another.
  pub Appends-bind :
      (t : Terms) (xs ys : List ℕ) (c : Copied) (k : Terms → Copied)
      → Appends size v2 t xs c
      → length xs + length ys ≤ space size v2 t.room t.cur
      → ((u : Terms)
          → IsFilled size v2 u.full u.cur
          → u.room ≤ u.pool
          → length ys ≤ space size v2 u.room u.cur
          → Appends size v2 u ys (k u))
      → Appends size v2 t (xs ++ ys) (c >>= k)
  Appends-bind t xs ys c k a fit rest =
      let b = rest a.after a.filled a.pooled (omega (arith, a.left)) in
      rw a.ok (record {
        after = b.after;
        ok = b.ok;
        wrote = b.wrote ∙ (ap (λ s. s ++ ys) a.wrote ∙ append_assoc (text v2 t) xs ys);
        filled = b.filled;
        pooled = b.pooled;
        left = omega (arith, b.left, a.left, length-append xs ys);
        slots = b.slots ∙ a.slots;
      })
