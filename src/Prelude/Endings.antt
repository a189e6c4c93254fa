-- ===== src/Prelude/Endings.antt =====
-- How a C++ function of the program ends.
-- `ok` and `err` are its return values for success and failure: 0 and 1 in the transfers, 1 and 0 or
-- -1 in the image's code. `exit` is a call of `exit(1)`; `fault` is undefined behaviour, such as a
-- null `FILE*` passed to `fclose`; `no_fuel` has no counterpart in the program.
pub data Status : Type 0 where
  ok err exit fault no_fuel : Status
