-- ===== src/Client/Main/Unset.antt =====
-- A command line of InfoDumping/main.cpp that `parseArgs` accepts and that leaves a pointer unset.
use project.Prelude.{ℕ, ◌≡◌, ◌≢◌, refl, sym, ◌∙◌, ap, subst, List, [], ◌∷◌, All, length}
use project.Client.Args.{Pointer, unset, null, to, Args, Flag, server, port, dir, parse_args}
use project.Client.Args.Words.{
  words, last_address, last_port, last_dir, named_args, parse_args-words,
}
use project.Client.Round.{Station}
use project.Client.Main.{Build, Surroundings, undefined, run_args, tmain}

abbrev pointer : Flag → Args → Pointer
pointer server a = a.server_address
pointer port a = a.port_number
pointer dir a = a.output_dir_name

-- An option of another kind leaves the pointer.
address_kept :
    (options : List (Flag × List ℕ))
    → All (λ o. o.0 ≢ server) options
    → last_address unset options ≡ unset
address_kept [] h = refl
address_kept ((server, value) ∷ options) (differs, h) = absurd (differs refl)
address_kept ((port, value) ∷ options) (differs, h) = address_kept options h
address_kept ((dir, value) ∷ options) (differs, h) = address_kept options h

port_kept :
    (options : List (Flag × List ℕ))
    → All (λ o. o.0 ≢ port) options
    → last_port unset options ≡ unset
port_kept [] h = refl
port_kept ((server, value) ∷ options) (differs, h) = port_kept options h
port_kept ((port, value) ∷ options) (differs, h) = absurd (differs refl)
port_kept ((dir, value) ∷ options) (differs, h) = port_kept options h

dir_kept :
    (options : List (Flag × List ℕ)) → All (λ o. o.0 ≢ dir) options → last_dir unset options ≡ unset
dir_kept [] h = refl
dir_kept ((server, value) ∷ options) (differs, h) = dir_kept options h
dir_kept ((port, value) ∷ options) (differs, h) = dir_kept options h
dir_kept ((dir, value) ∷ options) (differs, h) = absurd (differs refl)

pointer_kept :
    (flag : Flag) (options : List (Flag × List ℕ))
    → All (λ o. o.0 ≢ flag) options
    → pointer flag (named_args options) ≡ unset
pointer_kept server options h = address_kept options h
pointer_kept port options h = port_kept options h
pointer_kept dir options h = dir_kept options h

module _ (b : Build) (fuel rounds : ℕ) (w : Surroundings) (st : Station) where
  unset_port :
      (address dir_name : Pointer)
      → (run_args b fuel rounds w
          (record { port_number = unset; server_address = address; output_dir_name = dir_name })
          st).0
        ≡ undefined
  unfolding run_args
  unset_port address unset = refl
  unset_port address null = refl
  unset_port unset (to d) = refl
  unset_port null (to d) = refl
  unset_port (to a) (to d) = refl

  unset_server :
      (port_number dir_name : Pointer)
      → (run_args b fuel rounds w
          (record { port_number = port_number; server_address = unset; output_dir_name = dir_name })
          st).0
        ≡ undefined
  unfolding run_args
  unset_server p unset = refl
  unset_server p null = refl
  unset_server p (to d) = refl

  run_args_unset :
      (flag : Flag) (a : Args)
      → pointer flag a ≡ unset
      → (run_args b fuel rounds w a st).0 ≡ undefined
  unfolding run_args
  run_args_unset dir a e = rw (e, run_args) refl
  run_args_unset server a e =
      subst (λ p. (run_args b fuel rounds w (record a { server_address = p }) st).0 ≡ undefined)
        (sym e) (unset_server a.port_number a.output_dir_name)
  run_args_unset port a e =
      subst (λ p. (run_args b fuel rounds w (record a { port_number = p }) st).0 ≡ undefined)
        (sym e) (unset_port a.server_address a.output_dir_name)

-- A command line of three options, one kind of which does not occur, so that another is repeated:
-- `parseArgs` accepts it, and `_tmain`, of either client, uses a pointer that was never set.
pub tmain_unset :
    (b : Build) (fuel rounds : ℕ) (w : Surroundings) (st : Station) (flag : Flag)
    (options : List (Flag × List ℕ))
    → w.words ≡ words options
    → length options ≡ 3
    → All (λ o. o.0 ≢ flag) options
    → (tmain b fuel rounds w st).0 ≡ undefined
unfolding tmain
tmain_unset b fuel rounds w st flag options typed three missing =
    let parsed = ap parse_args typed ∙ parse_args-words options three in
    let left = pointer_kept flag options missing in
    rw (parsed, tmain) (run_args_unset b fuel rounds w st flag (named_args options) left)
