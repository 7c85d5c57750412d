-- ===== src/Api/Client/Calls.antt =====
-- The public methods of `ApiClient`, by area.
pub mod Student
pub mod Library
pub mod Catalogue
pub mod Operations
pub mod Laws
use Student.{StudentCall, student_route}
use Library.{LibraryCall, library_route}
use Catalogue.{CatalogueCall, catalogue_route}
use Operations.{OperationsCall, operations_route}
use scholarmatch_ai.Api.Client.Routes.{Route}

pub data Call (Body : Type 0) : Type 0 where
  student : StudentCall Body → Call Body
  library : LibraryCall Body → Call Body
  catalogue : CatalogueCall Body → Call Body
  operations : OperationsCall Body → Call Body

unfoldable pub route_of : {Body : Type 0} → Call Body → Route Body
unfolding student_route library_route catalogue_route operations_route
route_of (student call) = student_route call
route_of (library call) = library_route call
route_of (catalogue call) = catalogue_route call
route_of (operations call) = operations_route call
