-- ===== src/Tests/Clients.antt =====
-- The theorems on the client's program at concrete inputs.
use project.Prelude.{arith}
use project.Wire.{size}
use project.Client.Main.{Time, get_current_timestamp}
use project.Client.Main.Stamp.{IsTime, log_name}
use project.Wire.Format.{Forest, Tree, IsTree}

abbrev pub noon : Time
noon = record { year = 2024; month = 5; day = 17; hour = 12; minute = 0; second = 59 }

noon-IsTime : IsTime noon
noon-IsTime = record {
  year_fits = omega arith;
  month_fits = omega arith;
  day_fits = omega arith;
  hour_fits = omega arith;
  minute_fits = omega arith;
  second_fits = omega arith;
}

abbrev next_minute : Time
next_minute = record noon { minute = 1; second = 0 }

next_minute-IsTime : IsTime next_minute
next_minute-IsTime = record {
  year_fits = omega arith;
  month_fits = omega arith;
  day_fits = omega arith;
  hour_fits = omega arith;
  minute_fits = omega arith;
  second_fits = omega arith;
}

-- The log directory is empty.
abbrev pub tree : Tree
tree = Tree.dir (log_name noon) Forest.end

pub tree-IsTree : IsTree size tree
unfolding get_current_timestamp
tree-IsTree = (
  record {
    fits = omega arith;
    bytes = (
      omega arith,
      (
        omega arith,
        (
          omega arith,
          (
            omega arith,
            (
              omega arith,
              (
                omega arith,
                (
                  omega arith,
                  (
                    omega arith,
                    (
                      omega arith,
                      (
                        omega arith,
                        (
                          omega arith,
                          (
                            omega arith,
                            (
                              omega arith,
                              (
                                omega arith,
                                (
                                  omega arith,
                                  (omega arith, (omega arith, (omega arith, (omega arith, tt)))),
                                ),
                              ),
                            ),
                          ),
                        ),
                      ),
                    ),
                  ),
                ),
              ),
            ),
          ),
        ),
      ),
    );
  },
  tt,
)
