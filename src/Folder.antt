-- ===== src/Folder.antt =====
-- libs/log_writer/storage_management/folder.{h,cpp}: `Folder`, the day's folder with a writer for
-- each channel.
pub mod Channels
use tracebox.Prelude.{
  ℕ, ◌≡◌, Bool, true, false, not, ◌&&◌, Option, none, some, List, [], ◌∷◌, ◌++◌, ℤ, positive, ◌==◌,
  if◌then◌else◌,
}
use tracebox.Bytes.{Text, text_eq}
use tracebox.Calendar.{Date, time_to_yyyymmdd}
use tracebox.StreamWriter.{
  StreamWriter, LogRequest, World, Outcome, returned, raises, hangs, init, open_request, write,
  einval, to_string, close_writer,
}

abbrev pub Files : Type 0
Files = List (Text × StreamWriter)

pub record Folder : Type 0 where
  pub yyyymmdd : ℕ
  pub folder : Text
  pub files : Files

-- What a call meets outside, with the directories that are there, and what `create_directories`
-- returns for one; none if it throws.
pub record FolderWorld : Type 0 where
  pub world : World
  pub local_date : ℕ → Date
  pub dir_exists : Text → Bool
  pub creates : Text → Option Bool

unfoldable pub new_folder : Text → Folder
new_folder folder = record { yyyymmdd = 0; folder = folder; files = [] }

unfoldable pub same_day : (ℕ → Date) → Folder → ℕ → Bool
same_day local_date f time_ns = f.yyyymmdd == time_to_yyyymmdd local_date time_ns

-- `close()`: the destructor of each writer closes its files.
unfoldable pub close_folder : Folder → Folder
close_folder f = record f { yyyymmdd = 0; files = [] }

abbrev pub day_path : Text → ℕ → Text
day_path folder day = folder ++ (b'/' ∷ to_string day)

-- `create`; none if it throws, which leaves the day behind.
unfoldable pub create : FolderWorld → Folder → ℕ → Folder × Option Bool
create env f time_ns =
    let day = time_to_yyyymmdd env.local_date time_ns in
    let path = day_path f.folder day in
    let begun = record f { yyyymmdd = day; folder = path } in
    if env.dir_exists path then (begun, some true) else (elim (env.creates path) [
      | none ↦ (begun, none)
      | some true ↦ (begun, some true)
      | some false ↦ (record begun { yyyymmdd = 0 }, some false)
    ])

-- `files_.find`
unfoldable pub find_writer : Text → Files → Option StreamWriter
find_writer channel [] = none
find_writer channel ((name, w) ∷ files) =
    if text_eq name channel then some w else find_writer channel files

-- The entry of a channel, new or changed in place.
unfoldable pub put_writer : Text → StreamWriter → Files → Files
put_writer channel w [] = (channel, w) ∷ []
put_writer channel w ((name, v) ∷ files) =
    if text_eq name channel then (name, w) ∷ files else (name, v) ∷ put_writer channel w files

abbrev pub keep : Folder → Text → StreamWriter → Folder
keep f channel w = record f { files = put_writer channel w f.files }

-- `it->second.write(...)`
unfoldable pub write_channel : FolderWorld → Folder → LogRequest → StreamWriter → Folder × Outcome
write_channel env f request w =
    let (w', result) = write env.world w request.time_ns request.payload in
    (keep f request.channel w', result)

-- A new writer, opened and then written to; the count of `openFile` is not added.
unfoldable pub open_channel :
    FolderWorld → Folder → LogRequest → StreamWriter × Outcome → Folder × Outcome
open_channel env f request (w, returned code) =
    if positive code
    then write_channel env f request w
    else (keep f request.channel w, returned code)
open_channel env f request (w, raises) = (keep f request.channel w, raises)
open_channel env f request (w, hangs) = (keep f request.channel w, hangs)

unfoldable pub write_day : FolderWorld → Folder → LogRequest → Folder × Outcome
write_day env f request = elim (find_writer request.channel f.files) [
  | some w ↦ write_channel env f request w
  | none ↦ open_channel env f request (open_request env.world (init f.folder) request)
]

-- Behind `create`.
abbrev pub write_created : FolderWorld → LogRequest → Folder × Option Bool → Folder × Outcome
write_created env request (f, none) = (f, raises)
write_created env request (f, some true) = write_day env f request
write_created env request (f, some false) = (f, returned einval)

unfoldable pub write_folder : FolderWorld → Folder → LogRequest → Folder × Outcome
write_folder env f request =
    if f.yyyymmdd == 0
    then write_created env request (create env f request.time_ns)
    else write_day env f request
