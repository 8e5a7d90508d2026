-- ===== src/Pvm/Control/Targets.antt =====
-- Where branches and dynamic jumps may lead.
use jam_protocol.Base.{ℕ, ◌*◌, ◌/◌, ◌%◌, ◌≤◌, ◌<◌, ◌≡◌, ◌≢◌, ◌⊎◌, List, arith, Bool, true, false}
use jam_protocol.Base.Words.{u32}
use jam_protocol.Pvm.State.{done, Slice, JumpTable, exit_continue, za}
use jam_protocol.Pvm.Decode.{sub32}
use jam_protocol.Pvm.Control.{is_opcode_valid, is_start_of_basic_block, branch, jump_entry, djump}

-- A dynamic jump that continues was made from an address of the jump table: not zero, even, and at
-- most twice the table's size. It leads to that entry of the table, which starts a basic block.
pub djump-continue :
    (pc a dest : ℕ) (table : JumpTable) (bitmask : List ℕ)
    → djump pc a table bitmask ≡ done (exit_continue, dest)
    → (is_start_of_basic_block bitmask dest ≡ true)
      × (jump_entry table (sub32 (a / za) 1) ≡ done dest)
      × (0 < a)
      × (a ≤ u32 (table.size * za))
      × (a % za ≡ 0)
unfolding djump
djump-continue pc a dest table bitmask h = ground arith

-- A branch that continues elsewhere than at its own address was taken, and leads to its target, which
-- starts a basic block or holds no valid opcode.
pub branch-continue :
    (pc b dest : ℕ) (taken : Bool) (bitmask : List ℕ) (code : Slice)
    → branch pc b taken bitmask code ≡ done (exit_continue, dest)
    → dest ≢ pc
    → (taken ≡ true)
      × (dest ≡ b)
      × ((is_start_of_basic_block bitmask b ≡ true) ⊎ (is_opcode_valid code b ≡ done false))
unfolding branch
branch-continue pc b dest taken bitmask code h moved = ground arith
