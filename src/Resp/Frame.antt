-- ===== src/Resp/Frame.antt =====
-- src/resp.rs: the type `Frame` and the names that a command gives.
use evilresp.Base.Bytes.{Bytes}
use evilresp.Base.{ℕ, suc, Bool, List, Option}
use evilresp.Base.Int.{ℤ}

-- `Frames` is `Vec<Frame>` and `Pairs` is `Vec<(Frame, Frame)>`. `null_array` is `Array(None)`.
mutual
  pub data Frame : Type 0 where
    simple_string : Bytes → Frame
    simple_error : Bytes → Frame
    integer : ℤ → Frame
    bulk_string : Option Bytes → Frame
    array : Frames → Frame
    null_array : Frame
    null : Frame
    boolean : Bool → Frame
    double : Bytes → Frame
    big_number : Bytes → Frame
    bulk_error : Bytes → Frame
    verbatim_string : Bytes → Frame
    map : Pairs → Frame
    set : Frames → Frame
    push : Frames → Frame
    attribute : Pairs → Frame
    inline : List Bytes → Frame

  pub data Frames : Type 0 where
    nil : Frames
    cons : Frame → Frames → Frames

  pub data Pairs : Type 0 where
    end : Pairs
    pair : Frame → Frame → Pairs → Pairs

-- `Vec::len`.
abbrev pub count : Frames → ℕ
count nil = 0
count (cons f fs) = suc (count fs)

abbrev pub count_pairs : Pairs → ℕ
count_pairs end = 0
count_pairs (pair k v ps) = suc (count_pairs ps)
