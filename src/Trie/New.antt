-- ===== src/Trie/New.antt =====
-- About `Trie::new`, and what the operations rely on.
use libdatrie_rs.Common.{◌≡◌, refl, false, [], ◌∷◌, arith}
use libdatrie_rs.Common.Int.{pos, negsuc}
use libdatrie_rs.Common.Run.{ok}
use libdatrie_rs.Stream.{ByteOrder}
use libdatrie_rs.Types.{TrieData, IsSerial}
use libdatrie_rs.AlphaMap.{RangeSet, AlphaMap}
use libdatrie_rs.AlphaMap.RoundTrip.{AlphaMapOk}
use libdatrie_rs.DArray
use libdatrie_rs.DArray.{cell}
use libdatrie_rs.DArray.Cells.{da_default, get_root, get_base}
use libdatrie_rs.DArray.RoundTrip.{DArrayOk}
use libdatrie_rs.DArray.FreeList.{IsPool}
use libdatrie_rs.Tail.Free.{IsFree}
use libdatrie_rs.Trie.Defs.{Trie, ro_new, new}
use libdatrie_rs.Trie.RoundTrip.{TrieOk}

module _ {D : Type 0} {Valid : D → Type 0} (b : ByteOrder) (rangemap : RangeSet) (t : TrieData D)
    (law : IsSerial t Valid) where
  -- A new trie over a well-formed alphabet.
  pub record Fresh (self : Trie D) : Type 0 where
    pub parts : TrieOk b rangemap t law self.ro
    pub pool : IsPool self.ro.da []
    pub blocks : IsFree self.ro.tail []
    pub root : DArray.is_separate self.ro.da (DArray.get_root self.ro.da) ≡ ok false

  default-DArrayOk : DArrayOk da_default
  unfolding da_default
  default-DArrayOk = record {
    pool = cell (negsuc 0) (negsuc 0) ∷ cell (pos 3) (pos 0) ∷ [];
    header = refl;
    count = omega arith;
    fits = ((omega arith, omega arith), ((omega arith, omega arith), tt));
  }

  default-IsPool : IsPool da_default []
  unfolding da_default
  default-IsPool = record {
    links = (refl, refl);
    sorted = tt;
    small = omega arith;
    enough = omega arith;
  }

  -- Over an alphabet that can be saved, `Trie::new` gives a trie of well-formed parts, which can be
  -- saved, with no free cells or blocks, and whose root is not separate.
  pub new-Fresh : (alpha_map : AlphaMap) → AlphaMapOk alpha_map → Fresh (new alpha_map)
  unfolding new ro_new DArray.is_separate get_base get_root da_default
  new-Fresh alpha_map h = record {
    parts = record {
      alpha_map = h;
      da = default-DArrayOk;
      tail = record { first = omega arith; count = omega arith; blocks = tt };
    };
    pool = default-IsPool;
    blocks = record { chain = refl; sorted = tt; small = omega arith };
    root = refl;
  }
