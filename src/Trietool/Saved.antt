-- ===== src/Trietool/Saved.antt =====
-- About the file of trietool after the trie is dropped.
use libdatrie_rs.Common.{ℕ, Bool, true, false, ◌≡◌, refl, sym, ap, ◌∙◌, Option, List, []}
use libdatrie_rs.Common.Int.{ℤ}
use libdatrie_rs.Common.Run.{ok, ◌>>=◌}
use libdatrie_rs.Stream.{vec_sink, push, ByteOrder}
use libdatrie_rs.CApi.Tries.{CTrie}
use libdatrie_rs.Types.{c_trie_data, IsSerial}
use libdatrie_rs.AlphaMap.{RangeSet}
use libdatrie_rs.Trie.Defs.{is_dirty}
use libdatrie_rs.Trie.Serial.{serialize, from_reader}
use libdatrie_rs.Trie.RoundTrip.{TrieOk, reread, trie_Saved}
use libdatrie_rs.Trietool.Session.{AutoSaveTrie, drop, auto_from_file}
use mathlib.Core.List.{append-nil}

module _ {Valid : Option ℤ → Type 0} (b : ByteOrder) (rangemap : RangeSet)
    (law : IsSerial (c_trie_data b) Valid) (self : AutoSaveTrie) where
  drop-clean : is_dirty self.trie ≡ false → drop b rangemap self ≡ ok self.file
  unfolding drop
  drop-clean clean = rw (drop, clean) refl

  drop-dirty :
      (left : CTrie) (bytes : List ℕ)
      → is_dirty self.trie ≡ true
      → serialize b (c_trie_data b) self.trie vec_sink ≡ ok (left, push vec_sink bytes)
      → drop b rangemap self ≡ ok bytes
  unfolding drop
  drop-dirty left bytes dirty saves = rw (drop, dirty, saves) refl

  -- What the file holds when a clean trie is dropped, and a dirty one.
  abbrev pub Dropped : Bool → Type 0
  Dropped false = drop b rangemap self ≡ ok self.file
  Dropped true =
      (bytes : List ℕ) × (drop b rangemap self ≡ ok bytes)
      × (auto_from_file b rangemap (ok bytes)
          ≡ ok (record {
            trie = record {
              ro = reread b rangemap (c_trie_data b) law self.trie.ro;
              is_dirty_ = false;
            };
            file = bytes;
          }))

  -- A clean trie leaves the file as it was. A dirty one of well-formed parts is written when it is
  -- dropped, whatever the file held, and AutoSaveTrie::from_file then gives the trie back, clean,
  -- with the terminator for every suffix that was missing.
  pub drop-auto_from_file :
      TrieOk b rangemap (c_trie_data b) law self.trie.ro
      → (dirty : Bool) → is_dirty self.trie ≡ dirty
      → Dropped dirty
  unfolding auto_from_file
  drop-auto_from_file h false clean = drop-clean clean
  drop-auto_from_file h true dirty =
      let saved = trie_Saved b rangemap (c_trie_data b) law self.trie h in
      (
        saved.bytes,
        drop-dirty _ saved.bytes dirty (saved.saves vec_sink tt),
        ap
              (λ k. from_reader b (c_trie_data b) rangemap k >>= λ r.
                ok (record { trie = r.0; file = saved.bytes }))
              (sym (append-nil saved.bytes))
            ∙ rw (saved.loads []) refl,
      )
