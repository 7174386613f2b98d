-- ===== src/Lib.antt =====
-- Verification of the runtime of probabilistic-lua.
--
-- The repository is a probabilistic programming layer in Lua (probabilistic/*.lua) on top of a modified
-- LuaJIT 2.0.1, which it carries in full (LuaJIT-2.0.1/). The Lua layer names random choices by the
-- position of their call in the bytecode, so it stands on what the C runtime keeps of a function:
-- instructions, constants and line numbers. This library models the C runtime. It starts with bytecode
-- dumps, the way in which function prototypes leave a process and enter another one.
--
-- Bytecode dumps (LuaJIT-2.0.1/src/lj_bcdump.h, lj_bcwrite.c, lj_bcread.c):
--   Bcdump/Types.antt      constants, template tables and prototypes (TValue, GCtab, GCproto of lj_obj.h)
--   Bcdump/Buffer.antt     the writer's buffer: bcwrite_byte, bcwrite_block, bcwrite_need, bcwrite_resize
--   Bcdump/Uleb.antt       ULEB128 numbers: bcwrite_uleb128, bcread_uleb128, bcread_uleb128_33
--   Bcdump/Uleb/Wide.antt  the 33-bit numbers of bcwrite_knum
--   Bcdump/Write/*.antt    bcwrite_ktabk, bcwrite_ktab, bcwrite_kgc, bcwrite_knum, bcwrite_bytecode,
--                          bcwrite_proto, bcwrite_header, bcwrite_footer and lj_bcwrite
--   Bcdump/Format/*.antt   the grammar in the comment of lj_bcdump.h as plain functions to bytes (Values, Pieces),
--                          what is saved of a prototype (Save), what is loaded again (Load), and the
--                          prototypes for which both are meant (Valid)
--   Bcdump/Read/*.antt     bcread_ktabk, bcread_ktab, bcread_kgc, bcread_knum, bcread_bytecode, bcread_uv,
--                          bcread_dbg, bcread_proto, bcread_header, bcread_fill and lj_bcread; the proofs on
--                          one prototype are in Proto/Data and Proto/Piece, on the refills in Proto/Refill,
--                          on the tree and the whole dump in Proto/Dump, Proto/Header and Proto/Whole
--   Bcdump/RoundTrip/*     the writer and the reader together: Saved on what the writer saves, Whole on
--                          all bytes of a dump
--   Bcdump/Tests/*.antt    two sample prototypes, and the theorems on them
--
-- Tables (LuaJIT-2.0.1/src/lj_tab.c, lj_tab.h, lj_obj_equal of lj_obj.c):
--   Tab/Types.antt         keys, nodes and tables (TValue, Node, GCtab of lj_obj.h), lj_obj_equal
--   Tab/Hash.antt          lj_rol, both variants of hashrot, hashkey
--   Tab/Chain/*            lists of nodes along the `next` pointers, and what changes of pointers do to them
--   Tab/Find.antt          lj_tab_getinth, lj_tab_getstr, lj_tab_getint, lj_tab_get; in Find/ the
--                          invariant of the hash part (Invariant), the laws of doubles (Keys) and the
--                          table as a map (Correct)
--   Tab/NewKey.antt        lj_tab_newkey; in NewKey/ its three ways to give a key a node (Place, Rename,
--                          Insert), its stores (Stores) and loops (Loops)
--   Tab/Set.antt           lj_tab_setinth, lj_tab_setstr, lj_tab_setint, lj_tab_set; Set/Write on a store
--                          through a slot
--   Tab/Len.antt           unbound_search, lj_tab_len; Len/Absent finds an integer that is not in a table
--   Tab/Next.antt          keyindex, lj_tab_next; Next/Traverse on the calls from nil to the end
--   Tab/New.antt           newhpart, clearhpart, clearapart, newtab, lj_tab_new, lj_tab_new1, lj_tab_dup
--   Tab/Resize.antt        countint, countarray, counthash, bestasize, rehashtab, resizetab, lj_tab_reasize
--   Tab/Tests.antt         a small table, and the theorems on it
--
-- Integer arithmetic (LuaJIT-2.0.1/src/lj_carith.c, lj_vmmath.c):
--   Arith.antt             lj_carith_mul64, divu64, divi64, modu64, modi64, powu64, powi64, and lj_vm_modi;
--                          Arith/Cong on words as residues, Power and Modulo on the results
--
-- How it is modelled. Memory is a list of bytes with a size: a store past the size, or a read past the
-- bytes at hand, is the error `overrun` of Common/Result.antt, a shift that C leaves open is `undefined`,
-- and the errors that the reader throws are `bad_code` (LJ_ERR_BCBAD), `bad_format` (LJ_ERR_BCFMT) and
-- `stack_overflow` (LJ_ERR_STKOV).
-- Numbers are natural numbers, with `% 2 ^ 32` where the source computes in MSize or uint32_t. A prototype
-- is a tree: its GC constants hold its children. The double type of the build is given by two
-- conversions and `==` (NumOps) whose documented behaviour is NumLaws, doubles being pairs of words; the
-- `exact` of NumOps, the int32 that a double is equal to, is for Format/Save only. The byte order and
-- LJ_DUALNUM of the build are fields of Build, so that a dump of one build is read by another.
-- The writer function and its state, and the start instructions of traces, are parameters. Format/Save
-- and Format/Load say what is saved and loaded without the functions of the writer and the reader:
-- trailing nils are cut by `trim`, patched instructions are listed by opcode in `original`, hash bits are
-- the least that suffice (`least_bits`).
--
-- Bounds. A chunk of the input and the sum with the bytes at hand are MSize in bcread_fill (`append_block`).
-- The prototypes of a dump are on the Lua stack while it is read: `slots` of lj_bcread is by how much L->top
-- can rise before incr_top throws LJ_ERR_STKOV with the stack at its maximal size, less than LUAI_MAXSTACK
-- (65500). A prototype with more children than that can be dumped, but not loaded.
--
-- In a table a node pointer is an index, nil is `none`, and a value is any type, as no value is looked at.
-- A pointer to a value is a slot (Tab/Find.antt): setters return it with the table, and the caller writes
-- through it. An interned string is its contents; the hash of a string object, and the few operations on
-- doubles that tables need, with LJ_DUALNUM, are KeyOps, and KeyLaws (Tab/Find/Keys.antt) is what the
-- theorems use of them.
-- lj_tab_newkey takes what it does without a free node as the parameter `retry`; `insert` of
-- Tab/Resize.antt is that branch, to a given depth of nested rehashes. New memory holds anything (Memory).
--
-- Fuel. Doubling a buffer size has 33 rounds, as after 32 doublings any size is large enough; a ULEB128
-- loop has five, as five groups hold 35 bits; lj_fls has 32. `stuck` is the error when fuel runs out.
-- lj_bcread takes its fuel as an argument, one unit for each prototype and one for the end.
-- A loop along a chain of a table has as many rounds as there are nodes, since a chain visits no node
-- twice; the doubling of unbound_search has 32, bestasize 29 as there are 28 bins, and the
-- linear search two rounds more than there are cells and nodes. The loops of lj_carith_powu64 halve a
-- 64-bit exponent and have 64.
--
-- Not modelled: allocation failure and garbage collection during dumps, lj_vm_cpcall (the writer's errors
-- are values here), the growth of the Lua stack below its maximum, the copies of the reader's buffer (only
-- the bytes at hand are kept, and whether its size is enough for them), the pointers to upvalue and variable
-- names (bcread_varinfo), strings as interned objects. The table calls of the dump
-- reader are parameters there, not yet the tables of Tab/. Of tables: metatables, the cache of absent
-- metamethods (nomm), write barriers, lj_tab_free, and whether the array part stands in the object (colo);
-- dead keys keep their contents, so that no new string gets the address of one; the moves of `next` and
-- `freetop` from one node vector to another, as they are indices. The counts of countarray and counthash
-- are not wrapped, as they stay below 2 ^ 31; those of bestasize are.
-- The lexer, the parser, the garbage collector, the JIT compiler, the assembler code and the Lua layer are
-- not part of this library yet.
pub mod Common
pub mod Bcdump
pub mod Tab
pub mod Arith
