-- ===== src/Lib.antt =====
-- LayerSmith builds container images from a specification, scans them, and hands their archives on
-- to hosts that have no registry. This library models the parts of the Python backend that check a
-- specification and make a Containerfile of it, that run builds and scans and keep their records, files and
-- logs, that cut an image archive into parts and put them together again, and that move the data
-- directories.
--
-- Split.Plan: `part_size`, `plan` and the file names of backend/layersmith/services/splitting.py. `plan`
-- lists the ranges (offset, length) of an archive's parts.
-- Split.Stream: `read_range` and `_file_chunks` of the same file, which stream a range of the archive.
-- Split.Hash: `hash_parts`, one pass that computes each part's checksum and the whole archive's.
-- The local variables of its loop are the record `Pass`; `close` is the test for a full part.
-- Split.Manifest: the stored manifest, `SplitService.compute`, `current_manifest`, `downloads` and the
-- checksum files.
-- Split.Service: `SplitService` with its jobs: `start`, `_progress`, the end of `_run` (`finish`) and `status`.
-- Split.Service.Threads has its threads in any order, as a step relation.
-- Split.Script: the shell program that `assemble_script` generates, which restores the archive on a host.
-- Split.Assemble: plan and streams together.
-- Vtar: backend/layersmith/services/vtar.py, a tar archive of a folder that is read by ranges and never
-- written: `Layout`, `Layout.read` and `layout`.
-- Builds.Removal: `delete` and `recover_interrupted` of backend/layersmith/services/builds.py over the table of
-- builds and the disk. Builds.Log: its `_emit` and `LogBus`, the log file and those who follow it live.
-- Builds.Run: its `run`, with the states of a build, the checks of an image and what a failure leaves.
-- Builds.Context: its `prepare_context` with `context_plan` and `script_body` of
-- backend/layersmith/core/containerfile.py, up to the files that the recipes of special images add.
-- Scanning.Archive: `ScanService.archive_for` of backend/layersmith/services/scanning.py, which hands a scanner
-- the build's own export or a temporary one.
-- Scanning.Records: the counts of its `_record`, and `recover_interrupted` and `delete_for_build`.
-- Scanning.Run: `create` and `run` of the same service, with the states of a scan.
-- Scanning.Trivy: what scanners/trivy.py makes of a Trivy report and stores, and its command lines.
-- Core: backend/layersmith/core. Core.Patterns has the patterns of spec.py and `check`, Core.Reference `parse_reference`,
-- Core.Version the versions and the names made of them, Core.Specification `validate_spec`, and Core.Packages
-- `resolve_packages` over the tables of catalog.py, which are in Core.Catalog. Core.Containerfile is `generate` of
-- containerfile.py. The recipes (training, AI/ML, GPU benchmark, OpenShift, opencode) are left out of both.
-- Backends: backend/layersmith/backends/cli.py with podman.py and docker.py, up to `resolve_base` and `export`.
-- Models: backend/layersmith/services/llm_models.py and the patterns and names of llm/catalog.py. Models.Download is
-- `_download`, Models.Service the state with `_verify`, `compute_parts` and `delete`, where `rmtree` is a
-- parameter, Models.Service.Run is `run`,
-- Models.Service.Request `request` and Models.Service.Serving `read_part`. The tar and its parts are those of Vtar and Split.
-- Storage: `validate` and `save` of backend/layersmith/services/storage.py, which move the data directories.
-- Prelude: lists by native numbers, equality, text as code points, results, tables.
--
-- `hashlib.sha256` and `tarfile`'s header encoding are parameters. Nothing is assumed of the first;
-- the second fills whole blocks where a theorem says so. Other parameters are the container runtime's answers,
-- Hugging Face's answers and the resolution of links. Time, the database and the disk come in as arguments: what a run
-- reads when it starts and when it commits are different states. A disk is a table of files by the texts of their paths.
--
-- A loop of the source is structural where it walks a list. `offsets` has as much fuel as the archive has
-- bytes, which is enough since its step is at least 1; `read_loop` has as much as bytes remain, since
-- each round reads one at least or raises. `hash_parts` takes its fuel as an argument and is `none` where
-- that runs out; each chunk's length is enough where the stream is no longer than expected. `folder_name` tries
-- an index for each name that is taken and one more.
--
-- A specification is JSON there and a record here: its texts are `str`, and a missing list is empty. A value that a
-- pattern is matched against is kept apart from what is stored, as the code strips the one and not always
-- the other.
--
-- Not modelled: `assemble_script`'s text substitution and `_install_run`; the script's option
-- parsing, its messages, `--install`, signals and a failing `rm`; the recipes of special images and what they add
-- to a specification, a Containerfile and a bundle; `build`, `run_container` and `remove` of the backends; the
-- scripts for models and their progress; the HTTP interface, the client and the web interface, which are mostly input
-- and output over these parts; the tables and scripts of the special images.
pub mod Backends
pub mod Models
pub mod Builds
pub mod Core
pub mod Prelude
pub mod Scanning
pub mod Split
pub mod Storage
pub mod Vtar
