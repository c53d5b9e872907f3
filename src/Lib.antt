-- ===== src/Lib.antt =====
-- The REST API extension for TYPO3 in this repository, from its annotations to its answers.
--
-- How the parts interact. A request comes to Classes/Dispatcher/Bootstrap.php. It calls the processors
-- (CORS), looks for the first resource with a matching route, takes the handler of highest priority that
-- supports the operation, and serializes what the handler returns; exceptions become answers with their
-- status. The middlewares before it choose the language of the request, and the routes begin with the
-- base path of the current site. A handler finds or reads an object, asks the access checkers,
-- validates, and writes through the common repository, which also builds the query of a collection
-- from the filters of the operation. A collection response applies the pagination and links its pages.
--
-- Which file models which part:
-- - Exception, Exception/Violations: Classes/Exception.
-- - Php, Php/Number: the values of PHP and their casts, and Classes/Utility/ParameterUtility.php.
-- - Domain and its children: Classes/Domain/Model, Classes/Annotation and Classes/Factory; Settings are
--   the persistence and upload settings, Filter is ApiFilter, Resource is ApiResource.
-- - Query, Filter: the calls on the query object of Extbase, and filterProperty of Classes/Filter.
--   Filter/Joins and Filter/Statements are the joins and the statements of Classes/Filter/AbstractFilter.php,
--   SearchFilter.php and ContainFilter.php.
-- - Http: requests, and responses as an interface with the laws of PSR-7.
-- - Cors, Cors/Preflight: the CORS processor, service and options, and the handler of OPTIONS requests.
-- - Runtime: what the code calls outside the repository, and the state of a request: the history of
--   calls, the static variable of the access checkers, and the response that is passed by reference.
--   Exec is a computation over that state.
-- - Action: calls that return or throw and change a state, with the state that is left by throwing.
-- - Access: Classes/Security.
-- - Repository: Classes/Domain/Repository/CommonRepository.php and Classes/Service/StorageService.php.
-- - Handler: Classes/OperationHandler and Classes/Service/ValidationService.php. Handler/Refinement has the
--   abstract view of it, the writes that become durable, which Runtime/Durable reads off a history.
-- - OpenApi: the parameters and responses of Classes/Service/OpenApiBuilder.php; OpenApi/Filters the parameters of
--   filters, OpenApi/Components the schemas of the classes. A round of that recursion is spent on a class that
--   is not being described yet, so there are as many rounds as classes.
-- - Resources: Classes/Domain/Repository/ApiResourceRepository.php and Classes/Response/MainEndpointResponse.php.
-- - Upload: Classes/Service/FileUploadService.php, which the handler of uploads calls: Mask and Filename are
--   getFilename, Service is the rest, Storage are the storages of TYPO3 as an interface.
-- - Serializer: Classes/Service/SerializerMetadataService.php: Params are the texts of handler parameters,
--   Types and Properties the metadata of one class, Generation the files and the static cache.
-- - Objects: Classes/Serializer and Classes/Service/PropertyInfoService.php: Contexts are its context builders and
--   constructors, Files the reading of references to files, Links and Images what is written of files,
--   Subscribers and Accessors what they are named after.
-- - Inline: Classes/ViewHelpers.
-- - Response: Classes/Response.
-- - Dispatcher: Classes/Dispatcher, Classes/Configuration/Configuration.php and ext_localconf.php.
-- - Sites: Classes/Service/SiteService.php; Sites/Routes is RouteService.php, UrlService.php and
--   FileReferenceService.php there, and Classes/Routing; Sites/Languages is Classes/Middleware and Classes/Hook.
-- - Swagger: Resources/Public/ESM/swagger-init.js.
-- - Base: shared lists, texts, integers and the stable sort; Tests: runs on concrete data.
-- A function has the name of the method in the spelling of this library: findFiltered is find_filtered.
--
-- Conventions. A call that may throw is a Result. The platform answers by functions of the calls made so
-- far, so nothing is assumed of listeners, the persistence manager, the validators or the expression
-- language. Array keys are texts; a parameter whose name is a decimal number is left aside where keys
-- are searched. Floats do not occur; integers of 64 bits are checked where the code multiplies. Texts are
-- walked by characters, and case is mapped for ASCII. Translations are taken to exist. usort is a stable
-- insertion sort. Loops are structural recursion, but for that over the classes of the documentation and the one over
-- the parents of a class, whose fuel is the depth of the class: no class has more ancestors than that.
-- In the handlers, reading a request is a call of the platform, which also tells the file references that
-- FileReferenceHandler removes on the way; Objects/Files has that removal itself.
--
-- Not modelled: the configuration of the serializer, the events, the providers of the expression language, the
-- texts of the documentation and the formula of the distance filter; they are libraries and glue, or arguments here.
pub mod Access
pub mod Action
pub mod Base
pub mod Cors
pub mod Dispatcher
pub mod Domain
pub mod Exception
pub mod Filter
pub mod Handler
pub mod Http
pub mod Inline
pub mod Objects
pub mod OpenApi
pub mod Php
pub mod Query
pub mod Repository
pub mod Resources
pub mod Response
pub mod Result
pub mod Runtime
pub mod Serializer
pub mod Sites
pub mod Swagger
pub mod Tests
pub mod Upload
