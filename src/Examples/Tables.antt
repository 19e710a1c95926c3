-- ===== src/Examples/Tables.antt =====
-- A table of action values with two rows, in which natural numbers stand for the values.
use dstest.Prelude.{
  ◌/◌, if◌then◌else◌, ℕ, ◌+◌, ◌-◌, ◌*◌, ◌≡◌, ltb, leb, ◌==◌, [], ◌∷◌, some, pos, pos_part, arith,
  List, ok, Returns, ◌<◌,
}
use dstest.Prelude.Machine.{Floats}
use dstest.Scheduling.Ql.MemTable
use dstest.Scheduling.Ql.MemTable.{new_mem_table}
use dstest.Scheduling.Ql.Tables.{Write, write_mem, write_dynamic, or_zero, write_mem-write_dynamic}
use dstest.Scheduling.Ql.DynamicMemTable.{new_dynamic_mem_table, DynamicMemTable, Row, get}

abbrev naturals : Floats
naturals = record {
  F = ℕ;
  lt = ltb;
  le = leb;
  eq = λ a b. a == b;
  add = λ a b. a + b;
  sub = λ a b. a - b;
  mul = λ a b. a * b;
  div = λ a b. a / b;
  log10 = λ a. if leb 1000 a then 3 else if leb 100 a then 2 else if leb 10 a then 1 else 0;
  min = λ a b. if leb a b then a else b;
  max = λ a b. if leb a b then b else a;
  of_int = pos_part;
  to_int = pos;
  hundredth = 0;
}

abbrev row : Row naturals
row = (3, 7) ∷ (1, 9) ∷ (2, 4) ∷ []

abbrev table : DynamicMemTable naturals
table = (50, row) ∷ (60, (0, 5) ∷ []) ∷ []

abbrev writes : List (Write naturals)
writes =
    record { state = 50; action = 1; q_value = 9 }
    ∷ record { state = 60; action = 0; q_value = 4 }
    ∷ record { state = 50; action = 0; q_value = 7 }
    ∷ []

write_mem-write_dynamic_example :
    Returns (write_mem naturals writes (new_mem_table naturals 2)) λ m.
      (state action : ℕ)
      → action < 2
      → MemTable.get naturals m state (pos action)
        ≡ ok (
            some (
              or_zero naturals (
                get naturals
                  (write_dynamic naturals writes (new_dynamic_mem_table naturals))
                  state
                  action)))
write_mem-write_dynamic_example =
    write_mem-write_dynamic naturals 2 writes (omega arith, (omega arith, (omega arith, tt)))
