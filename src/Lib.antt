-- ===== src/Lib.antt =====
-- Models of the core of the LCFG client libraries (lcfg-core), written from their C sources.
--
-- The program's parts. A package (packages/package.c) names a piece of software: a name, an
-- architecture, a version and a release, and merge instructions: a prefix, a priority and a context.
-- A package list (packages/list.c) collects packages, merges further ones by its rules and sorts
-- itself. Where each package came from is recorded as a list of derivations
-- (common/derivation/derivation.c and list.c), one for each file, with the line numbers. Packages and
-- derivations are shared between lists by reference counts.
-- A resource (resources/resource.c) is a typed value of a component, set, encoded, mutated
-- (resources/mutate.c) and addressed by keys; its names may be templates
-- (resources/templates.c) that are filled with tags (resources/tags/). The resources of one name
-- stand in a list that merges further ones by rules (resources/components/reslist.c); components
-- (component.c) collect resources, and a set of components (set.c) is a hash table by their names.
--
-- Common holds the C types and functions that all parts use. Its children: Tests (comparisons of
-- numbers, the conditional), Int (the type int), Lists (lists, heaps), Text (C strings, as bytes
-- without the final NUL, `none` for NULL; ctype.h and string.h in the C locale), Scan (strstr, and
-- the words that strtok makes of a text) and Codes (the enumerations of include/common.h).
--
-- Derivation models common/derivation/derivation.c: the record Derivation is LCFGDerivation, and
-- merge_line, merge_lines, has_line and so on are lcfgderivation_merge_line etc. Derivation.Store
-- models the heap of derivations with their reference counts and common/derivation/list.c, from
-- lcfgderivlist_append to lcfgderivlist_merge_file_line; Derivation.Lists has the operations of
-- that file on whole lists. Lines, Merge and Sharing hold the proofs.
--
-- Package models the fields of packages/package.c with the setters and their tests, Package.Flags
-- the flags, Package.Compare the comparisons, Package.World the heap of packages beside that of
-- derivations, with lcfgpackage_acquire, _relinquish, _set_derivation and _merge_derivation.
-- Package.Version models debvercmp and compare_vstrings, in the build without librpm; its children
-- describe the order independently, as pieces, and prove that it is one.
--
-- PackageList models packages/list.c: the nodes of a list are the addresses of its packages, in
-- order. Merge is lcfgpkglist_merge_package, cut into the search, the decision and the part behind
-- the label `apply`; Sort is lcfgpkglist_sort; Life is the reference count of the list. The proofs
-- go by a step relation (Step) that merge_package is shown to refine; Counts, Unique, WellFormed and
-- Pinned argue on the steps.
--
-- Context models common/context/context.c (lcfgcontext_from_string, _to_string, _combine_expressions
-- and the setters). Context.Contexts is common/context/list.c: the references, updates and queries of
-- context lists. Context.Expression is the grammar of common/context/parser.y with its actions, on
-- tokens; Grammar describes it as trees, Parser and Truth hold the proofs; Truth compares the
-- sign of the result with Boolean connectives applied from the left.
--
-- Tags models resources/tags/tag.c and Tags.Sets the mutations and set operations of
-- resources/tags/list.c; Members, Gather and Union hold the proofs.
--
-- Utils models lcfgutils_string_finditem and lcfgutils_string_hasitem of utils/utils.c. Scan, Words,
-- Items and Locate compare them with the words of the text. Utils.Hash is lcfgutils_string_djbhash.
--
-- Templates models the records and the parser of resources/templates.c, Templates.Substitute
-- lcfgtemplate_substitute and lcfgresource_build_name. Filled describes the filled template
-- independently; Copies, Substituted and RoundTrip hold the proofs.
--
-- Resource models the fields of resources/resource.c, the validity of values for each type and the
-- setters; Mutate is resources/mutate.c, Encode lcfgresource_enc_value, Keys lcfgresource_build_key,
-- _parse_key and _parse_spec, Types the types as texts, Calls the sequences of setters and mutations.
-- ValidType, ValidMutate, Valid, Tags, AddTags, Located, ReplaceTag, KeyParts, KeyRoundTrip, TypeParts and
-- TypeRoundTrip hold the proofs. The mutations search values with Utils.
--
-- ResourceList models resources/components/reslist.c on a heap of resources, with the comparisons of
-- Resource.Compare; Merge is lcfgreslist_merge_resource, cut like that of packages, whose decisions
-- and keys it uses. Unique, Step, WellFormed and Lists hold the proofs.
--
-- Components models the record, references and names of resources/components/component.c.
-- Components.Sets is resources/components/set.c, a hash table with the linear probing of
-- Common.Probe; Names describes the table by the names in its slots, Table holds the invariant, and Kept, Insert, Inserted and Created the proofs.
--
-- Heaps are functions from addresses, which are numbers. A release that frees a structure empties it.
-- Allocation never fails: the source exits there. Unsigned counters wrap at 2^32
-- or 2^64, written out.
-- Where the source passes NULL to a function of string.h that does not take it, an operation on
-- texts has no result (`none`).
--
-- Fuel. debvercmp has the lengths of both texts: a round takes a byte at least. The passes of the
-- sort have the square of the length: a pass that swaps lowers the number of pairs in the wrong
-- order. The loop of lcfgpkglist_destroy has the size: a round removes a node. That each fuel is
-- enough is part of the theorem about it. The parser of expressions has the number of tokens. The
-- search for an item has one more than the length of the text: a round passes a whole item.
--
-- Not modelled: messages, files and printing; the parsers and printers of package specifications;
-- the lexer of expressions; the contexts, priorities, derivations and environment variables of
-- resources; the sorting of resource lists, the resources of components and package sets; profiles and
-- differences; the DBM, XML and RPM layers; the other utilities.
pub mod Common
pub mod Derivation
pub mod Package
pub mod PackageList
pub mod Context
pub mod Tags
pub mod Utils
pub mod Templates
pub mod Resource
pub mod ResourceList
pub mod Components
