-- ===== src/Examples/Host.antt =====
-- A host on which `docker ps` and `docker stop` work: its state is the list of running containers.
use proyecto_1_sopes.Prelude.{
  Bool, true, false, none, ap, sym, bytes_eq, if◌then◌else◌, ◌⊎◌, inl, inr, ◌≡◌, refl, not, Option,
  some, List, [], ◌∷◌, Bytes, bytes_key, ◌==◌, ascii, select, length, ltb, ltb→lt,
}
use proyecto_1_sopes.Text.{max_scan_token_size}
use proyecto_1_sopes.Rules.{ContainerInfo, Shell}
use proyecto_1_sopes.Rules.Reading.{render, render_line, IsPrintable, ArePrintable, is_word}
use proyecto_1_sopes.Rules.Failures.{IsFallibleDocker}
use proyecto_1_sopes.Rules.Quota.{IsDocker, is_stress}

-- `stop` has one argument, `ps` has several.
abbrev answer : List Bytes → List ContainerInfo → Option Bytes × List ContainerInfo
answer (sub ∷ id ∷ []) cs = (some id, select (λ d. not (id == d.id)) cs)
answer _ cs = (some (render (select is_stress cs)), cs)

abbrev pub docker_shell : Shell (List ContainerInfo)
docker_shell = record { run = λ timeout name args cs. answer args cs }

abbrev pub docker_shell-IsDocker : IsDocker docker_shell
docker_shell-IsDocker = record {
  running = λ cs. cs;
  ps_prints = λ cs. refl;
  ps_keeps = λ cs. refl;
  stop_ends = λ c cs. refl;
}

abbrev container_named : Bytes → Bytes → ContainerInfo
container_named id name = record { id = id; name = name; image = ascii "stress:so1" }

abbrev pub cpu_one : ContainerInfo
cpu_one = container_named (ascii "a1") (ascii "stress-high-cpu-1")

abbrev pub cpu_two : ContainerInfo
cpu_two = container_named (ascii "a2") (ascii "stress-high-cpu-2")

abbrev pub ram_three : ContainerInfo
ram_three = container_named (ascii "a3") (ascii "stress-high-ram-3")

abbrev pub low_four : ContainerInfo
low_four = container_named (ascii "a4") (ascii "stress-low-4")

-- One of high consumption too many.
abbrev pub four_containers : List ContainerInfo
four_containers = low_four ∷ cpu_one ∷ ram_three ∷ cpu_two ∷ []

IsPrintable-of :
    (c : ContainerInfo)
    → is_word c.id ≡ true
    → is_word c.name ≡ true
    → is_word c.image ≡ true
    → ltb (length (render_line c)) max_scan_token_size ≡ true
    → IsPrintable c
IsPrintable-of c i n m l = record {
  id_word = i;
  name_word = n;
  image_word = m;
  short = ltb→lt (length (render_line c)) max_scan_token_size l;
}

pub four_containers-ArePrintable : ArePrintable four_containers
four_containers-ArePrintable = (
  IsPrintable-of low_four refl refl refl refl,
  (
    IsPrintable-of cpu_one refl refl refl refl,
    (
      IsPrintable-of ram_three refl refl refl refl,
      (IsPrintable-of cpu_two refl refl refl refl, tt),
    ),
  ),
)

-- A host on which every `docker stop` is out of time, one of them after the container has ended.
abbrev slow_stop : Bytes → Bool → List ContainerInfo → List ContainerInfo
slow_stop id ended cs = if ended then select (λ d. not (id == d.id)) cs else cs

abbrev slow_answer : List Bytes → List ContainerInfo → Option Bytes × List ContainerInfo
slow_answer (sub ∷ id ∷ []) cs = (none, slow_stop id (bytes_eq id (ascii "a1")) cs)
slow_answer _ cs = (some (render (select is_stress cs)), cs)

abbrev pub slow_shell : Shell (List ContainerInfo)
slow_shell = record { run = λ timeout name args cs. slow_answer args cs }

pub slow_stop_outcomes :
    (id : Bytes) (ended : Bool) (cs : List ContainerInfo)
    → (slow_stop id ended cs ≡ select (λ d. not (id == d.id)) cs) ⊎ (slow_stop id ended cs ≡ cs)
slow_stop_outcomes id true cs = inl refl
slow_stop_outcomes id false cs = inr refl

abbrev or_nothing : Option Bytes → Bytes
or_nothing none = []
or_nothing (some out) = out

abbrev pub slow_shell-IsFallibleDocker : IsFallibleDocker slow_shell
slow_shell-IsFallibleDocker = record {
  running = λ cs. cs;
  ps_prints = λ cs h. ap or_nothing (sym h);
  ps_keeps = λ cs. refl;
  stop_ends_or_not = λ c cs. slow_stop_outcomes c.id (bytes_eq c.id (ascii "a1")) cs;
}
