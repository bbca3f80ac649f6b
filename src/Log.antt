-- ===== src/Log.antt =====
-- src/log/log.h and src/log/log.c: the tags with their levels, the messages on the standard error
-- output, and the functions that join words in a buffer of a given size.
pub mod Levels
pub mod Concat
use event_driven_tcp_chatroo.Base.{
  ℕ, zero, suc, ◌+◌, Bool, true, false, ◌&&◌, Option, none, some, List, [], ◌∷◌, ◌++◌, Bytes, codes,
  length, leb, ◌==◌, if◌then◌else◌,
}

-- `log_level`
pub data Level : Type 0 where
  off info error : Level

abbrev pub rank : Level → ℕ
rank off = 0
rank info = 1
rank error = 2

-- The objects of type `log_tag`.
pub data Tag : Type 0 where
  shell interpreter shellmemory log codestore pcb_tag ready_queue scheduler page : Tag
  epoll_tag protocol_tag connection_tag client_tag server_tag : Tag

abbrev pub tag_name : Tag → Bytes
tag_name shell = codes "SHELL"
tag_name interpreter = codes "INTERPRETER"
tag_name shellmemory = codes "SHELLMEMORY"
tag_name log = codes "LOG"
tag_name codestore = codes "CODESTORE"
tag_name pcb_tag = codes "PCB"
tag_name ready_queue = codes "READY_QUEUE"
tag_name scheduler = codes "SCHEDULER"
tag_name page = codes "PAGE"
tag_name epoll_tag = codes "EPOLL"
tag_name protocol_tag = codes "PROTOCOL"
tag_name connection_tag = codes "CONNECTION"
tag_name client_tag = codes "CLIENT"
tag_name server_tag = codes "SERVER"

-- Which object a pointer to a tag points to.
abbrev pub address : Tag → ℕ
address shell = 0
address interpreter = 1
address shellmemory = 2
address log = 3
address codestore = 4
address pcb_tag = 5
address ready_queue = 6
address scheduler = 7
address page = 8
address epoll_tag = 9
address protocol_tag = 10
address connection_tag = 11
address client_tag = 12
address server_tag = 13

-- The levels that the tags have, and what was written to the standard error output.
pub record Logger : Type 0 where
  pub level : Tag → Level
  pub written : Bytes

-- The levels that the program starts with.
abbrev pub default_level : Tag → Level
default_level epoll_tag = error
default_level protocol_tag = error
default_level connection_tag = error
default_level client_tag = error
default_level server_tag = error
default_level t = off

unfoldable pub logd_level_set : Tag → Level → Logger → Logger
logd_level_set tag status s = record s {
  level = λ t. if address t == address tag then status else s.level t;
}

unfoldable pub log_level_set_all_off : Logger → Logger
log_level_set_all_off s = logd_level_set server_tag off (
    logd_level_set client_tag off (
      logd_level_set connection_tag off (
        logd_level_set protocol_tag off (
          logd_level_set epoll_tag off (
            logd_level_set page off (
              logd_level_set scheduler off (
                logd_level_set ready_queue off (
                  logd_level_set pcb_tag off (
                    logd_level_set codestore off (
                      logd_level_set log off (
                        logd_level_set shellmemory off
                          (logd_level_set interpreter off (logd_level_set shell off s)))))))))))))

-- The levels that `main` sets first.
unfoldable pub main_levels : Logger → Logger
main_levels s = logd_level_set epoll_tag error (
    logd_level_set connection_tag error (
      logd_level_set client_tag error
        (logd_level_set server_tag error (logd_level_set protocol_tag error s))))

unfoldable pub log_level_enabled : Tag → Level → Logger → Bool
log_level_enabled tag message_level s = leb (rank message_level) (rank (s.level tag))

abbrev pub write : Bytes → Logger → Logger
write text s = record s { written = s.written ++ text }

-- `text` is what `vfprintf` makes of the format and its arguments.
unfoldable pub logd : Tag → Level → Bytes → Logger → Logger
logd tag level text s =
    if log_level_enabled tag level s
    then write text (write (b'[' ∷ (tag_name tag ++ codes "] ")) s)
    else s

unfoldable pub logd_plain : Tag → Level → Bytes → Logger → Logger
logd_plain tag level text s = if log_level_enabled tag level s then write text s else s

-- What joining returns: the null pointer, a text, or nothing that C defines, where it reads past
-- the words or writes past the buffer.
pub data Joined : Type 0 where
  null undefined : Joined
  text : Bytes → Joined

-- A buffer of `max_len` bytes that holds a text has room for its final zero too.
abbrev pub fits : ℕ → Bytes → Joined
fits max_len t = if leb (length t + 1) max_len then text t else undefined

-- `strcat(res, s)`
abbrev pub strcat : ℕ → Joined → Bytes → Joined
strcat max_len (text t) s = fits max_len (t ++ s)
strcat max_len null s = undefined
strcat max_len undefined s = undefined

-- The loop of `concat`, over the words from `words[i]` on, while `n` are left.
unfoldable pub concat_loop : ℕ → ℕ → List Bytes → Joined → Joined
concat_loop max_len zero words res = res
concat_loop max_len (suc n) [] res = undefined
concat_loop max_len (suc n) (w ∷ words) res =
    concat_loop max_len n words (strcat max_len (strcat max_len res (b' ' ∷ [])) w)

-- `allocated` tells whether `malloc` gave the buffer: its answer is not tested.
unfoldable pub concat : Bool → List Bytes → ℕ → ℕ → Joined
unfolding concat_loop
concat allocated words zero max_len = null
concat allocated [] (suc n) max_len = undefined
concat allocated (w ∷ words) (suc n) max_len =
    if allocated then concat_loop max_len n words (fits max_len w) else undefined

-- `none` is the null pointer that ends the words.
unfoldable pub til_null_loop : ℕ → List (Option Bytes) → Joined → Joined
til_null_loop max_len [] res = undefined
til_null_loop max_len (none ∷ words) res = res
til_null_loop max_len (some w ∷ words) res =
    til_null_loop max_len words (strcat max_len (strcat max_len res (b' ' ∷ [])) w)

unfoldable pub concat_til_null : Bool → List (Option Bytes) → ℕ → Joined
unfolding til_null_loop
concat_til_null allocated [] max_len = undefined
concat_til_null allocated (none ∷ words) max_len = null
concat_til_null allocated (some w ∷ words) max_len =
    if allocated then til_null_loop max_len words (fits max_len w) else undefined
